-- ===== src/Telnet/Resize.antt =====
-- The window size suboption (RFC 1073): what a client sends for a size is the size that the server
-- is told, also where a byte of it is IAC and has to be doubled.
use brs_bbs.Prelude.{
  ℕ, ◌+◌, ◌*◌, ◌/◌, ◌%◌, ◌<◌, ◌≡◌, refl, sym, ap, ap₂, ◌∙◌, inl, inr, true, false, List, [], ◌∷◌,
  ◌++◌, append-nil, arith, ◌==◌, if◌then◌else◌, ==_iff, Bool-cases, length, set,
}
use brs_bbs.Prelude.Bytes.{at}
use brs_bbs.Telnet.{
  none_, wait_se, TelnetCtx, Callbacks, Event, resized, handler, handle_in, enter_state,
  process_opt_events, process_loop, process, iac, sb, se, nop, telopt_naws, telnet_iac_maxlen,
}
use brs_bbs.Telnet.Stream.{visible, visible-append, process_loop-append, process-eq-loop}
use brs_bbs.Telnet.Options.{handler-iac, handler_in, Consumes, Consumes-cons, Consumes-nil}
use brs_bbs.Telnet.Bounds.{IsValid}

-- A data byte inside a suboption.
abbrev pub escaped : ℕ → List ℕ
escaped c = if c == iac then iac ∷ iac ∷ [] else c ∷ []

-- `IAC SB NAWS w1 w0 h1 h0 IAC SE`, with the data escaped.
abbrev pub naws : ℕ → ℕ → List ℕ
naws w h =
    (iac ∷ sb ∷ telopt_naws ∷ [])
    ++ (escaped (w / 256)
        ++ (escaped (w % 256) ++ (escaped (h / 256) ++ (escaped (h % 256) ++ (iac ∷ se ∷ [])))))

module _ (cb : Callbacks) where
  Consumes-append :
      (ctx : TelnetCtx) (xs ys : List ℕ) {ctx1 ctx' : TelnetCtx} {es fs : List Event}
      → Consumes cb ctx xs ctx1 es
      → Consumes cb ctx1 ys ctx' fs
      → Consumes cb ctx (xs ++ ys) ctx' (es ++ fs)
  Consumes-append ctx xs ys {ctx1} {ctx'} {es} {fs} (k, e, v) (k', e', v') =
      rw (process_loop-append cb ctx xs ys) (
        ap₂ ◌++◌ k (ap (λ c. (process_loop cb c ys).0) e ∙ k'),
        ap (λ c. (process_loop cb c ys).1) e ∙ e',
        visible-append _ _ ∙ ap₂ ◌++◌ v (ap (λ c. visible (process_loop cb c ys).2) e ∙ v'),
      )

  -- The context that stores `c` as the next byte of the suboption.
  abbrev stored : TelnetCtx → ℕ → TelnetCtx
  stored ctx c = record ctx {
    iac_buf = set ctx.iac_buf ctx.iac_buflen c;
    iac_buflen = ctx.iac_buflen + 1;
    iac_state = wait_se;
    iac_quote = false;
  }

  handler_stores :
      (ctx : TelnetCtx) (c : ℕ)
      → ctx.iac_state ≡ wait_se
      → ctx.iac_buflen + 1 < telnet_iac_maxlen
      → ctx.iac_quote ≡ (c == iac)
      → ((handler cb ctx c).0 ≡ 1)
        × ((handler cb ctx c).1 ≡ stored ctx c)
        × (visible (handler cb ctx c).2 ≡ [])
  unfolding visible handle_in enter_state
  handler_stores ctx c s room q = ground (arith, handler_in cb ctx c)

  Consumes-escaped :
      (ctx : TelnetCtx) (c : ℕ)
      → ctx.iac_state ≡ wait_se
      → ctx.iac_quote ≡ false
      → ctx.iac_buflen + 1 < telnet_iac_maxlen
      → Consumes cb ctx (escaped c) (stored ctx c) []
  Consumes-escaped ctx c s q room = elim (Bool-cases (c == iac)) [
    | inl e ↦
        let ctx1 = record ctx { iac_quote = true } in
        let a = handler-iac cb ctx q in
        let b = handler_stores ctx1 iac s room refl in
        rw ((==_iff c iac).0 e) (
          Consumes-cons cb ctx iac (iac ∷ []) {es = []} (rw a) (rw a)
            (rw a (unfold visible in refl))
            (Consumes-cons cb ctx1 iac [] (rw b.0) b.1 b.2 (Consumes-nil cb _)))
    | inr n ↦
        let b = handler_stores ctx c s room (q ∙ sym n) in
        rw n (Consumes-cons cb ctx c [] (rw b.0) b.1 b.2 (Consumes-nil cb _))
  ]

  handler-sb :
      (ctx : TelnetCtx)
      → ctx.iac_state ≡ none_
      → ctx.iac_quote ≡ true
      → ((handler cb ctx sb).0 ≡ nop)
        × ((handler cb ctx sb).1
            ≡ record ctx { iac_state = wait_se; iac_quote = false; iac_buflen = 0 })
        × (visible (handler cb ctx sb).2 ≡ [])
  unfolding visible handle_in enter_state
  handler-sb ctx s q = ground (arith, handler_in cb ctx sb)

  handler_end :
      (ctx : TelnetCtx)
      → ctx.iac_state ≡ wait_se
      → ctx.iac_quote ≡ true
      → ((handler cb ctx se).0 ≡ 1)
        × ((handler cb ctx se).1 ≡ record ctx { iac_state = none_; iac_quote = false })
        × (visible (handler cb ctx se).2
            ≡ visible (process_opt_events cb ctx.iac_buf ctx.iac_buflen))
  unfolding handle_in enter_state
  handler_end ctx s q = ground (arith, handler_in cb ctx se)

  -- what the server is told of a size
  abbrev resize_events : ℕ → ℕ → List Event
  resize_events w h = if cb.term_resize then resized w h ∷ [] else []

  naws_events :
      (buf : List ℕ) (len : ℕ)
      → at buf 0 ≡ telopt_naws
      → visible (process_opt_events cb buf len)
        ≡ resize_events (at buf 1 * 256 + at buf 2) (at buf 3 * 256 + at buf 4)
  unfolding visible process_opt_events
  naws_events buf len e = ground arith

  -- The five bytes of the suboption, as they are stored.
  five : List ℕ → ℕ → ℕ → ℕ → ℕ → List ℕ
  five buf a b c d = set (set (set (set (set buf 0 telopt_naws) 1 a) 2 b) 3 c) 4 d

  at-five :
      (buf : List ℕ) (a b c d : ℕ)
      → length buf ≡ telnet_iac_maxlen
      → (at (five buf a b c d) 0 ≡ telopt_naws)
        × (at (five buf a b c d) 1 ≡ a)
        × (at (five buf a b c d) 2 ≡ b)
        × (at (five buf a b c d) 3 ≡ c)
        × (at (five buf a b c d) 4 ≡ d)
  unfolding five
  at-five (x0 ∷ x1 ∷ x2 ∷ x3 ∷ x4 ∷ buf) a b c d h = (refl, refl, refl, refl, refl)
  at-five _ a b c d h = absurd (omega arith)

  -- The context behind the suboption.
  abbrev resized_ctx : TelnetCtx → ℕ → ℕ → TelnetCtx
  resized_ctx ctx w h = record ctx {
    iac_state = none_;
    iac_quote = false;
    iac_buf = five ctx.iac_buf (w / 256) (w % 256) (h / 256) (h % 256);
    iac_buflen = 5;
  }

  Consumes-naws :
      (ctx : TelnetCtx) (w h : ℕ)
      → IsValid ctx
      → ctx.iac_state ≡ none_
      → ctx.iac_quote ≡ false
      → Consumes cb ctx (naws w h) (resized_ctx ctx w h) (resize_events w h ++ [])
  unfolding five
  Consumes-naws ctx w h ok s q =
      let c0 = record ctx { iac_quote = true } in
      let c1 = record ctx { iac_state = wait_se; iac_quote = false; iac_buflen = 0 } in
      let c2 = stored c1 telopt_naws in
      let c3 = stored c2 (w / 256) in
      let c4 = stored c3 (w % 256) in
      let c5 = stored c4 (h / 256) in
      let c6 = stored c5 (h % 256) in
      let c7 = record c6 { iac_quote = true } in
      let start = handler-iac cb ctx q in
      let begun = handler-sb c0 s refl in
      let kind = handler_stores c1 telopt_naws refl (omega arith) refl in
      let stop = handler-iac cb c6 refl in
      let ended = handler_end c7 refl refl in
      let cells = at-five ctx.iac_buf (w / 256) (w % 256) (h / 256) (h % 256) ok.storage in
      let told =
        naws_events c6.iac_buf 5 cells.0
        ∙ ap₂ resize_events (rw (cells.1, cells.2) (omega arith))
            (rw (cells.3, cells.4) (omega arith)) in
      let tail_ =
        Consumes-cons cb c6 iac (se ∷ []) {es = []} (rw stop) (rw stop)
          (rw stop (unfold visible in refl))
          (Consumes-cons cb c7 se [] (rw ended.0) ended.1 (ended.2 ∙ told) (Consumes-nil cb _)) in
      Consumes-cons cb ctx iac _ {es = []} (rw start) (rw start) (rw start (unfold visible in refl))
        (Consumes-cons cb c0 sb _ (rw begun.0) begun.1 begun.2 (
          Consumes-cons cb c1 telopt_naws _ (rw kind.0) kind.1 kind.2 (
            Consumes-append c2 (escaped (w / 256)) _
              (Consumes-escaped c2 (w / 256) refl refl (omega arith))
              (Consumes-append c3 (escaped (w % 256)) _
                (Consumes-escaped c3 (w % 256) refl refl (omega arith))
                (Consumes-append c4 (escaped (h / 256)) _
                  (Consumes-escaped c4 (h / 256) refl refl (omega arith))
                  (Consumes-append c5 (escaped (h % 256)) _
                    (Consumes-escaped c5 (h % 256) refl refl (omega arith)) tail_))))))

  -- Where a client sends `IAC SB NAWS` with a width and a height, high byte first, a byte equal to IAC
  -- doubled, the resize callback is called once with that width and height, no byte of it becomes
  -- input, no answer is sent, and the parser is at rest again.
  pub process-naws :
      (ctx : TelnetCtx) (w h : ℕ)
      → IsValid ctx
      → ctx.iac_state ≡ none_
      → ctx.iac_quote ≡ false
      → let r = process cb ctx (naws w h) in
        (r.0 ≡ [])
        × (r.1.iac_state ≡ none_)
        × (r.1.iac_quote ≡ false)
        × (visible r.2 ≡ (if cb.term_resize then resized w h ∷ [] else []))
  process-naws ctx w h ok s q =
      let same = process-eq-loop cb ctx (naws w h) in
      let r = Consumes-naws ctx w h ok s q in
      let last = same.1 ∙ r.1 in
      (
        same.0 ∙ r.0,
        ap (λ (k : TelnetCtx). k.iac_state) last,
        ap (λ (k : TelnetCtx). k.iac_quote) last,
        same.2 ∙ r.2 ∙ append-nil (resize_events w h),
      )
