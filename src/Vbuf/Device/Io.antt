-- ===== src/Vbuf/Device/Io.antt =====
-- `vbuf_general_write` and `vbuf_general_read`: no byte is lost, doubled or reordered between the
-- buffer and the device, and what the count of the result says.
use brs_bbs.Prelude.{
  ℕ, zero, suc, ◌+◌, ◌-◌, ◌≤◌, ◌<◌, min, ◌≡◌, refl, ap, ◌∙◌, ◌≢◌, ◌⊎◌, inl, inr, Bool, not, ◌&&◌,
  ◌||◌, Option, none, some, List, [], ◌∷◌, ◌++◌, append_assoc, arith, ltb, if◌then◌else◌,
  Bool-cases, Option-cases, length, length-append, take, drop, length-take, length-drop,
  take-append-drop,
}
use brs_bbs.Prelude.Bytes.{at, read_at, length-tabulate, at-tabulate, at-append, list_ext}
use brs_bbs.Vbuf.{Vbuf, size, tail_sz}
use brs_bbs.Vbuf.Device.{
  Amount, amount, is_least, failed, counted, Done, or_failed, advance_head, write_loop,
  general_write,
}
use brs_bbs.Vbuf.Contents.{IsValid, contents, length-contents, at-contents, contents-eq}

at-drop : (n : ℕ) (xs : List ℕ) (i : ℕ) → at (drop n xs) i ≡ at xs (n + i)
at-drop zero xs i = ground arith
at-drop (suc n) [] i = refl
at-drop (suc n) (x ∷ xs) i = ground (arith, at-drop n xs i)

at-take : (n : ℕ) (xs : List ℕ) (i : ℕ) → i < n → at (take n xs) i ≡ at xs i
at-take zero xs i h = absurd (omega arith)
at-take (suc n) [] i h = refl
at-take (suc n) (x ∷ xs) zero h = refl
at-take (suc n) (x ∷ xs) (suc i) h = at-take n xs i (omega arith)

take-take : (n k : ℕ) (xs : List ℕ) → n ≤ k → take n (take k xs) ≡ take n xs
take-take zero k xs h = refl
take-take (suc n) zero xs h = absurd (omega arith)
take-take (suc n) (suc k) [] h = refl
take-take (suc n) (suc k) (x ∷ xs) h = ap (λ r. x ∷ r) (take-take n k xs (omega arith))

-- The pieces that the writer is given are the `sz` oldest bytes.
pieces : Vbuf → ℕ → List ℕ
pieces v sz = read_at v.buf v.head (min (tail_sz v) sz) ++ read_at v.buf 0 (sz - min (tail_sz v) sz)

pieces-take : (v : Vbuf) (sz : ℕ) → IsValid v → sz ≤ size v → pieces v sz ≡ take sz (contents v)
unfolding pieces
pieces-take v sz ok h =
    list_ext _ _
      (omega (
        arith,
        length-append (read_at v.buf v.head (min (tail_sz v) sz))
            (read_at v.buf 0 (sz - min (tail_sz v) sz)),
        length-tabulate (min (tail_sz v) sz) (λ i. at v.buf (v.head + i)),
        length-tabulate (sz - min (tail_sz v) sz) (λ i. at v.buf (0 + i)),
        length-take sz (contents v),
        length-contents v,
      ))
      (λ i l.
        let l' : i < sz = omega (
          arith,
          length-append (read_at v.buf v.head (min (tail_sz v) sz))
              (read_at v.buf 0 (sz - min (tail_sz v) sz)),
          length-tabulate (min (tail_sz v) sz) (λ i. at v.buf (v.head + i)),
          length-tabulate (sz - min (tail_sz v) sz) (λ i. at v.buf (0 + i)),
        ) in
        ground (
          arith,
          at-append (read_at v.buf v.head (min (tail_sz v) sz))
              (read_at v.buf 0 (sz - min (tail_sz v) sz)) i,
          length-tabulate (min (tail_sz v) sz) (λ i. at v.buf (v.head + i)),
          at-tabulate (min (tail_sz v) sz) (λ i. at v.buf (v.head + i)) i,
          at-tabulate (sz - min (tail_sz v) sz) (λ i. at v.buf (0 + i)) (i - min (tail_sz v) sz),
          at-take sz (contents v) i,
          at-contents v i,
        ))

advance_head-IsValid : (v : Vbuf) (n : ℕ) → IsValid v → n ≤ size v → IsValid (advance_head v n)
advance_head-IsValid v n ok h = ground arith

size-advance_head :
    (v : Vbuf) (n : ℕ) → IsValid v → n ≤ size v → size (advance_head v n) + n ≡ size v
size-advance_head v n ok h = ground arith

contents-advance_head :
    (v : Vbuf) (n : ℕ) → IsValid v → n ≤ size v → contents (advance_head v n) ≡ drop n (contents v)
contents-advance_head v n ok h =
    contents-eq (advance_head v n) _
      (omega (arith, size-advance_head v n ok h, length-drop n (contents v), length-contents v))
      (λ i l.
        let l' = size-advance_head v n ok h in
        ground (arith, at-drop n (contents v) i, at-contents v (n + i)))

-- What a writer is relied on for: it takes a part of what it is offered, from the front, and none
-- of it if it fails. `sent` is what has gone out.
pub record WriterLaws {S : Type 0} (writer : S → List ℕ → List ℕ → Option ℕ × S) (sent : S → List ℕ)
    : Type 0 where
  pub takes_at_most :
      (ctx : S) (a b : List ℕ) (n : ℕ) → (writer ctx a b).0 ≡ some n → n ≤ length (a ++ b)
  pub sends :
      (ctx : S) (a b : List ℕ) (n : ℕ)
      → (writer ctx a b).0 ≡ some n
      → sent (writer ctx a b).1 ≡ sent ctx ++ take n (a ++ b)
  pub fails :
      (ctx : S) (a b : List ℕ) → (writer ctx a b).0 ≡ none → sent (writer ctx a b).1 ≡ sent ctx

-- A writer that never answers "try again": each call takes a byte or fails.
abbrev pub Progresses : {S : Type 0} → (S → List ℕ → List ℕ → Option ℕ × S) → Type 0
Progresses {S} writer = (ctx : S) (a b : List ℕ) → (writer ctx a b).0 ≢ some 0

-- The call returned; the buffer is valid, what was sent and what is held make up the same stream as
-- before, and the result is 0 or -1: no count of bytes.
abbrev pub Conserves : {S : Type 0} → (S → List ℕ) → S → Vbuf → Option (Done S) → Type 0
Conserves sent ctx v none = ⊥
Conserves sent ctx v (some (r, v', ctx')) =
    IsValid v'
    × (sent ctx' ++ contents v' ≡ sent ctx ++ contents v)
    × ((r ≡ counted 0) ⊎ (r ≡ failed))

sent_step :
    (v : Vbuf) (sz n : ℕ) (before after : List ℕ)
    → IsValid v
    → sz ≤ size v
    → n ≤ sz
    → after ≡ before ++ take n (pieces v sz)
    → after ++ contents (advance_head v n) ≡ before ++ contents v
sent_step v sz n before after ok h k e =
    rw
      (
        e,
        pieces-take v sz ok h,
        take-take n sz (contents v) k,
        contents-advance_head v n ok (omega arith),
      )
      (append_assoc before (take n (contents v)) (drop n (contents v))
        ∙ ap (λ q. before ++ q) (take-append-drop n (contents v)))

module _ {S : Type 0} (writer : S → List ℕ → List ℕ → Option ℕ × S) (sent : S → List ℕ)
    (laws : WriterLaws writer sent) (progress : Progresses writer) where
  -- the call that a round makes
  call : Vbuf → ℕ → S → Option ℕ × S
  call v sz ctx =
      writer ctx (read_at v.buf v.head (min (tail_sz v) sz))
        (read_at v.buf 0 (sz - min (tail_sz v) sz))

  call-le : (v : Vbuf) (sz n : ℕ) (ctx : S) → (call v sz ctx).0 ≡ some n → n ≤ sz
  unfolding call
  call-le v sz n ctx e = omega (
    arith,
    laws.takes_at_most ctx _ _ n e,
    length-append (read_at v.buf v.head (min (tail_sz v) sz))
        (read_at v.buf 0 (sz - min (tail_sz v) sz)),
    length-tabulate (min (tail_sz v) sz) (λ i. at v.buf (v.head + i)),
    length-tabulate (sz - min (tail_sz v) sz) (λ i. at v.buf (0 + i)),
  )

  call-sends :
      (v : Vbuf) (sz n : ℕ) (ctx : S)
      → IsValid v
      → sz ≤ size v
      → (call v sz ctx).0 ≡ some n
      → sent (call v sz ctx).1 ++ contents (advance_head v n) ≡ sent ctx ++ contents v
  call-sends v sz n ctx ok h e =
      sent_step v sz n (sent ctx) (sent (call v sz ctx).1) ok h (call-le v sz n ctx e)
        (unfold call pieces in laws.sends ctx _ _ n e)

  call-fails :
      (v : Vbuf) (sz : ℕ) (ctx : S) → (call v sz ctx).0 ≡ none → sent (call v sz ctx).1 ≡ sent ctx
  unfolding call
  call-fails v sz ctx e = laws.fails ctx _ _ e

  call-pos : (v : Vbuf) (sz n : ℕ) (ctx : S) → (call v sz ctx).0 ≡ some n → 0 < n
  unfolding call
  call-pos v sz zero ctx e = absurd (progress ctx _ _ e)
  call-pos v sz (suc n) ctx e = omega arith

  Conserves-trans :
      (ctx ctx' : S) (v v' : Vbuf) (r : Option (Done S))
      → sent ctx' ++ contents v' ≡ sent ctx ++ contents v
      → Conserves sent ctx' v' r
      → Conserves sent ctx v r
  Conserves-trans ctx ctx' v v' none e h = h
  Conserves-trans ctx ctx' v v' (some (r, v2, ctx2)) e h = (h.0, h.1 ∙ e, h.2)

  write_loop-none :
      (fuel : ℕ) (v : Vbuf) (sz copied : ℕ) (is_min : Bool) (ctx : S)
      → (call v sz ctx).0 ≡ none
      → write_loop writer (suc fuel) v sz copied is_min ctx
        ≡ some (or_failed copied, v, (call v sz ctx).1)
  unfolding write_loop call
  write_loop-none fuel v sz copied is_min ctx e = rw (e, write_loop)

  write_loop-some :
      (fuel : ℕ) (v : Vbuf) (sz copied : ℕ) (is_min : Bool) (ctx : S) (n : ℕ)
      → (call v sz ctx).0 ≡ some n
      → write_loop writer (suc fuel) v sz copied is_min ctx ≡ (
          if ltb 0 (sz - n) && not is_min
          then write_loop writer fuel (advance_head v n) (sz - n) copied is_min (call v sz ctx).1
          else some (counted copied, advance_head v n, (call v sz ctx).1))
  unfolding write_loop call
  write_loop-some fuel v sz copied is_min ctx n e = rw (e, write_loop)

  write_loop-Conserves :
      (fuel : ℕ) (v : Vbuf) (sz : ℕ) (is_min : Bool) (ctx : S)
      → IsValid v
      → 0 < sz
      → sz ≤ size v
      → sz ≤ fuel
      → Conserves sent ctx v (write_loop writer fuel v sz 0 is_min ctx)
  write_loop-Conserves zero v sz is_min ctx ok p h f = absurd (omega arith)
  write_loop-Conserves (suc fuel) v sz is_min ctx ok p h f = elim (Option-cases (call v sz ctx).0) [
    | inl e ↦
        rw (write_loop-none fuel v sz 0 is_min ctx e)
          (ok, ap (λ q. q ++ contents v) (call-fails v sz ctx e), inr refl)
    | inr (n, e) ↦
        let k = call-le v sz n ctx e in
        let m = call-pos v sz n ctx e in
        let sends = call-sends v sz n ctx ok h e in
        let ok' = advance_head-IsValid v n ok (omega arith) in
        let held = size-advance_head v n ok (omega arith) in
        rw (write_loop-some fuel v sz 0 is_min ctx n e)
          (elim (Bool-cases (ltb 0 (sz - n) && not is_min)) [
            | inl again ↦ rw again (
                Conserves-trans ctx (call v sz ctx).1 v (advance_head v n) _ sends (
                  write_loop-Conserves fuel (advance_head v n) (sz - n) is_min (call v sz ctx).1 ok'
                    (ground arith) (omega arith) (omega arith)))
            | inr stop ↦ rw stop (ok', sends, inl refl)
          ])
  ]

  -- With fuel for what the buffer holds, `vbuf_general_write` returns, for every amount; the
  -- buffer stays valid, and the bytes sent followed by the bytes held are those of before, so that
  -- nothing is lost, doubled or reordered. The result is 0 or -1, never the number of bytes sent.
  pub general_write-Conserves :
      (v : Vbuf) (sz : Amount) (ctx : S)
      → IsValid v
      → Conserves sent ctx v (general_write writer (size v) v sz ctx)
  unfolding general_write
  general_write-Conserves v sz ctx ok =
      elim (Bool-cases (ltb (amount sz (size v)) 1 || ltb (size v) (amount sz (size v)))) [
        | inl idle ↦ rw idle (ok, refl, inl refl)
        | inr busy ↦ rw busy (
            write_loop-Conserves (size v) v (amount sz (size v)) (is_least sz) ctx ok (ground arith)
              (ground arith) (ground arith))
      ]
