-- ===== src/Telnet/Stream.antt =====
-- `telnet_process` is a function of the byte stream: neither the prescan nor the way in which the
-- network cuts the stream into reads changes the input that comes out or the answers that are sent.
use brs_bbs.Prelude.{
  ℕ, ◌≡◌, refl, sym, ap, ap₂, ◌∙◌, inl, inr, true, false, List, [], ◌∷◌, ◌++◌, append_assoc, map,
  flatten, arith, ◌==◌, if◌then◌else◌, Bool-cases,
}
use brs_bbs.Telnet.{
  none_, TelnetCtx, Callbacks, Event, wrote, resized, client_code, ayt_sent, term_type, handler,
  process_loop, has_iac, is_plain, process, iac,
}

-- The events other than client codes.
unfoldable pub visible : List Event → List Event
visible [] = []
visible (client_code c ∷ es) = visible es
visible (wrote p ∷ es) = wrote p ∷ visible es
visible (resized w h ∷ es) = resized w h ∷ visible es
visible (ayt_sent ∷ es) = ayt_sent ∷ visible es
visible (term_type t ∷ es) = term_type t ∷ visible es

pub visible-append : (xs ys : List Event) → visible (xs ++ ys) ≡ visible xs ++ visible ys
unfolding visible
visible-append [] ys = refl
visible-append (client_code c ∷ es) ys = visible-append es ys
visible-append (wrote p ∷ es) ys = ap (λ r. wrote p ∷ r) (visible-append es ys)
visible-append (resized w h ∷ es) ys = ap (λ r. resized w h ∷ r) (visible-append es ys)
visible-append (ayt_sent ∷ es) ys = ap (λ r. ayt_sent ∷ r) (visible-append es ys)
visible-append (term_type t ∷ es) ys = ap (λ r. term_type t ∷ r) (visible-append es ys)

module _ (cb : Callbacks) where
  -- Outside a command, a byte other than IAC is input.
  handler_plain :
      (ctx : TelnetCtx) (c : ℕ)
      → ctx.iac_state ≡ none_
      → ctx.iac_quote ≡ false
      → (c == iac) ≡ false
      → handler cb ctx c ≡ (0, ctx, if cb.update_client_code then client_code c ∷ [] else [])
  unfolding handler
  handler_plain ctx c s q n = ground arith

  is_plain_lem :
      (ctx : TelnetCtx) (buf : List ℕ)
      → is_plain ctx buf ≡ true
      → (ctx.iac_state ≡ none_) × (ctx.iac_quote ≡ false) × (has_iac buf ≡ false)
  unfolding is_plain
  is_plain_lem ctx buf h = ground arith

  visible_code :
      (c : ℕ) (es : List Event)
      → visible ((if cb.update_client_code then client_code c ∷ [] else []) ++ es) ≡ visible es
  unfolding visible
  visible_code c es = ground arith

  process_loop_plain :
      (ctx : TelnetCtx) (buf : List ℕ)
      → ctx.iac_state ≡ none_
      → ctx.iac_quote ≡ false
      → has_iac buf ≡ false
      → let r = process_loop cb ctx buf in (r.0 ≡ buf) × (r.1 ≡ ctx) × (visible r.2 ≡ [])
  unfolding process_loop has_iac
  process_loop_plain ctx [] s q n = (refl, refl, unfold visible in refl)
  process_loop_plain ctx (c ∷ cs) s q n =
      let later = process_loop_plain ctx cs s q (ground arith) in
      rw (handler_plain ctx c s q (ground arith))
        (ap (λ r. c ∷ r) later.0, later.1, visible_code c _ ∙ later.2)

  -- The prescan is only a shortcut: with it or without, `telnet_process` keeps the same bytes, ends
  -- in the same context and makes the same events, but for the client codes.
  pub process-eq-loop :
      (ctx : TelnetCtx) (buf : List ℕ)
      → let fast = process cb ctx buf in
        let slow = process_loop cb ctx buf in
        (fast.0 ≡ slow.0) × (fast.1 ≡ slow.1) × (visible fast.2 ≡ visible slow.2)
  unfolding process
  process-eq-loop ctx buf = elim (Bool-cases (is_plain ctx buf)) [
    | inl plain ↦
        let (s, q, n) = is_plain_lem ctx buf plain in
        let same = process_loop_plain ctx buf s q n in
        rw plain (sym same.0, sym same.1, unfold visible in sym same.2)
    | inr other ↦ rw other (refl, refl, refl)
  ]

  plain_loop_codes :
      (ctx : TelnetCtx) (buf : List ℕ)
      → cb.update_client_code ≡ true
      → ctx.iac_state ≡ none_
      → ctx.iac_quote ≡ false
      → has_iac buf ≡ false
      → (process_loop cb ctx buf).2 ≡ map client_code buf
  unfolding process_loop has_iac
  plain_loop_codes ctx [] on s q n = refl
  plain_loop_codes ctx (c ∷ cs) on s q n =
      rw (handler_plain ctx c s q (ground arith), on)
        (ap (λ r. client_code c ∷ r) (plain_loop_codes ctx cs on s q (ground arith)))

  -- Where client codes are hashed they do depend on it: plain input is hashed byte by byte in the
  -- loop, and not at all when the prescan takes it.
  pub plain_codes :
      (ctx : TelnetCtx) (buf : List ℕ)
      → is_plain ctx buf ≡ true
      → cb.update_client_code ≡ true
      → ((process_loop cb ctx buf).2 ≡ map client_code buf) × ((process cb ctx buf).2 ≡ [])
  unfolding process
  plain_codes ctx buf plain on =
      let (s, q, n) = is_plain_lem ctx buf plain in (plain_loop_codes ctx buf on s q n, rw plain)

  pub process_loop-append :
      (ctx : TelnetCtx) (xs ys : List ℕ)
      → let r = process_loop cb ctx xs in
        let t = process_loop cb r.1 ys in
        process_loop cb ctx (xs ++ ys) ≡ (r.0 ++ t.0, t.1, r.2 ++ t.2)
  unfolding process_loop
  process_loop-append ctx [] ys = refl
  process_loop-append ctx (c ∷ xs) ys =
      let r = handler cb ctx c in
      let later = process_loop-append r.1 xs ys in
      ground (
        arith,
        later,
        append_assoc r.2 (process_loop cb r.1 xs).2
            (process_loop cb (process_loop cb r.1 xs).1 ys).2,
      )

  -- The reads of a session one after the other, the bytes kept and the events joined.
  pub process_all : TelnetCtx → List (List ℕ) → List ℕ × TelnetCtx × List Event
  process_all ctx [] = ([], ctx, [])
  process_all ctx (buf ∷ bufs) =
      let r = process cb ctx buf in let t = process_all r.1 bufs in (r.0 ++ t.0, t.1, r.2 ++ t.2)

  -- However the network cuts the stream into reads, the input that comes out, the last context and
  -- the events but for the client codes are those of one pass over the whole stream.
  pub process_all-flatten :
      (ctx : TelnetCtx) (bufs : List (List ℕ))
      → let r = process_all ctx bufs in
        let whole = process_loop cb ctx (flatten bufs) in
        (r.0 ≡ whole.0) × (r.1 ≡ whole.1) × (visible r.2 ≡ visible whole.2)
  unfolding process_all mathlib.Core.List.flatten
  process_all-flatten ctx [] = unfold process_loop in (refl, refl, refl)
  process_all-flatten ctx (buf ∷ bufs) =
      let same = process-eq-loop ctx buf in
      let r = process cb ctx buf in
      let ih = process_all-flatten r.1 bufs in
      let onto = λ (k : TelnetCtx). process_loop cb k (flatten bufs) in
      rw process_loop-append (
        ap₂ ◌++◌ same.0 (ih.0 ∙ ap (λ k. (onto k).0) same.1),
        ih.1 ∙ ap (λ k. (onto k).1) same.1,
        visible-append r.2 _
            ∙ ap₂ ◌++◌ same.2 (ih.2 ∙ ap (λ k. visible (onto k).2) same.1)
            ∙ sym (visible-append (process_loop cb ctx buf).2 _),
      )
