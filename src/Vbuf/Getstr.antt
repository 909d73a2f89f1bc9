-- ===== src/Vbuf/Getstr.antt =====
-- `vbuf_getstr`: a string that ends inside both the buffer and `sz` comes out whole; where no NUL
-- is found the padding may overwrite a byte that has been taken off the queue.
use brs_bbs.Prelude.{
  ℕ, zero, suc, ◌+◌, ◌-◌, ◌≤◌, ◌<◌, ◌≡◌, refl, ap, ◌∙◌, ◌≢◌, inl, inr, Option, none, some, List, [],
  ◌∷◌, ◌++◌, append-nil, append_assoc, arith, ◌==◌, if◌then◌else◌, Bool-cases, length, set,
  length-append, length-set, take, drop, length-take,
}
use brs_bbs.Vbuf.{Vbuf, size, is_empty, pop, popped, pad, getstr_loop, getstr}
use brs_bbs.Vbuf.Contents.{IsValid, contents, length-contents, contents-empty}
use brs_bbs.Vbuf.Single.{popped-IsValid, contents-popped}

abbrev pub NoNul : List ℕ → Type 0
NoNul [] = Unit {0}
NoNul (c ∷ s) = (c ≢ 0) × NoNul s

-- A pop of a queue that begins with `c`.
pop-cons :
    (v : Vbuf) (c : ℕ) (q : List ℕ)
    → IsValid v
    → contents v ≡ c ∷ q
    → (pop v ≡ (some c, popped v)) × IsValid (popped v) × (contents (popped v) ≡ q)
unfolding pop
pop-cons v c q ok e =
    let more : 0 < size v = omega (arith, ap length e, length-contents v) in
    let split = contents-popped v ok more in (ground arith, popped-IsValid v ok, cc)

pop-nil : (v : Vbuf) → IsValid v → contents v ≡ [] → pop v ≡ (none, v)
unfolding pop
pop-nil v ok e = ground (arith, ap length e, length-contents v)

-- One round of the loop.
getstr_loop-some :
    (sz : ℕ) (v : Vbuf) (out : List ℕ) (c : ℕ) (v' : Vbuf)
    → pop v ≡ (some c, v')
    → getstr_loop (suc sz) v out
      ≡ (if c == 0 then (out ++ (c ∷ []), v') else getstr_loop sz v' (out ++ (c ∷ [])))
unfolding getstr_loop
getstr_loop-some sz v out c v' e =
    rw (ap (λ (r : Option ℕ × Vbuf). r.0) e, ap (λ (r : Option ℕ × Vbuf). r.1) e, getstr_loop)

getstr_loop-none :
    (sz : ℕ) (v : Vbuf) (out : List ℕ)
    → pop v ≡ (none, v)
    → getstr_loop (suc sz) v out ≡ (pad sz out, v)
unfolding getstr_loop
getstr_loop-none sz v out e = rw (e, getstr_loop)

getstr_loop-more :
    (sz : ℕ) (v : Vbuf) (out : List ℕ) (c : ℕ) (v' : Vbuf)
    → pop v ≡ (some c, v')
    → c ≢ 0
    → getstr_loop (suc sz) v out ≡ getstr_loop sz v' (out ++ (c ∷ []))
getstr_loop-more sz v out c v' e ne = ground (arith, getstr_loop-some sz v out c v' e)

-- The loop up to a NUL.
getstr_loop-nul :
    (s : List ℕ) (sz : ℕ) (v : Vbuf) (out rest : List ℕ)
    → IsValid v
    → NoNul s
    → length s < sz
    → contents v ≡ s ++ (0 ∷ rest)
    → let r = getstr_loop sz v out in
      (r.0 ≡ out ++ (s ++ (0 ∷ []))) × IsValid r.1 × (contents r.1 ≡ rest)
getstr_loop-nul s zero v out rest ok nn h e = absurd (omega arith)
getstr_loop-nul [] (suc sz) v out rest ok nn h e =
    let (p, ok', q) = pop-cons v 0 rest ok e in
    rw (getstr_loop-some sz v out 0 (popped v) p) (refl, ok', q)
getstr_loop-nul (c ∷ s) (suc sz) v out rest ok nn h e =
    let (p, ok', q) = pop-cons v c (s ++ (0 ∷ rest)) ok e in
    let again = getstr_loop-nul s sz (popped v) (out ++ (c ∷ [])) rest ok' nn.1 (omega arith) q in
    rw (getstr_loop-more sz v out c (popped v) p nn.0)
      (again.0 ∙ append_assoc out (c ∷ []) (s ++ (0 ∷ [])), again.1, again.2)

-- A string with its NUL at the front of the queue, which fits `sz`, is what `vbuf_getstr` stores; it
-- is taken off the queue, and the rest stays. So `vbuf_getstr` reads back what `vbuf_putstr` put.
pub getstr_nul :
    (v : Vbuf) (s rest : List ℕ) (sz : ℕ)
    → IsValid v
    → NoNul s
    → length s < sz
    → contents v ≡ s ++ (0 ∷ rest)
    → (v' : Vbuf) × (getstr v sz ≡ some (some (s ++ (0 ∷ []), v')))
      × IsValid v'
      × (contents v' ≡ rest)
unfolding getstr
getstr_nul v s rest zero ok nn h e = absurd (omega arith)
getstr_nul v s rest (suc n) ok nn h e =
    let sz = suc n in
    let r = getstr_loop-nul s sz v [] rest ok nn h e in
    let held : 0 < size v =
      omega (arith, ap length e, length-append s (0 ∷ rest), length-contents v) in
    ((getstr_loop sz v []).1, ground arith, r.1, r.2)

-- What the padding leaves of the bytes taken, if `n` bytes were held and none of them is a NUL.
abbrev pub padded : ℕ → ℕ → List ℕ → List ℕ
padded sz n out = if n + 1 == sz then out ++ (0 ∷ []) else set out (length out - 1) 0

getstr_loop-NoNul :
    (sz : ℕ) (q : List ℕ) (v : Vbuf) (out : List ℕ)
    → IsValid v
    → NoNul (take sz q)
    → contents v ≡ q
    → let r = getstr_loop sz v out in
      (r.0 ≡ padded sz (length q) (out ++ take sz q)) × IsValid r.1 × (contents r.1 ≡ drop sz q)
getstr_loop-NoNul zero q v out ok nn e = (
  unfold getstr_loop pad in ground (arith, append-nil out),
  unfold getstr_loop in ok,
  unfold getstr_loop in e,
)
getstr_loop-NoNul (suc sz) [] v out ok nn e =
    rw (getstr_loop-none sz v out (pop-nil v ok e))
      (unfold pad in ground (arith, append-nil out), ok, e)
getstr_loop-NoNul (suc sz) (c ∷ q) v out ok nn e =
    let (p, ok', q') = pop-cons v c q ok e in
    let again = getstr_loop-NoNul sz q (popped v) (out ++ (c ∷ [])) ok' nn.1 q' in
    rw (getstr_loop-more sz v out c (popped v) p nn.0)
      (again.0 ∙ ground (arith, append_assoc out (c ∷ []) (take sz q)), again.1, again.2)

length-padded :
    (sz n : ℕ) (out : List ℕ) → length out ≤ sz → length out ≤ n → length (padded sz n out) ≤ sz
length-padded sz n out h k =
    ground (arith, length-append out (0 ∷ []), length-set out (length out - 1) 0)

-- Where `sz` is positive, as asserted, and no NUL stands within reach, `sz` bytes are taken, or all that is held. Only if exactly
-- `sz - 1` bytes were held is the string all of them: else its last byte is overwritten by the NUL,
-- and it is on neither side. At most `sz` bytes are stored at `s` in every case.
pub getstr-NoNul :
    (v : Vbuf) (sz : ℕ)
    → IsValid v
    → 1 ≤ sz
    → contents v ≢ []
    → NoNul (take sz (contents v))
    → let q = contents v in
      let s = padded sz (length q) (take sz q) in
      (v' : Vbuf) × (getstr v sz ≡ some (some (s, v')))
      × IsValid v'
      × (contents v' ≡ drop sz q)
      × (length s ≤ sz)
unfolding getstr
getstr-NoNul v zero ok p ne nn = absurd (omega arith)
getstr-NoNul v (suc n) ok p ne nn =
    let sz = suc n in
    let r = getstr_loop-NoNul sz (contents v) v [] ok nn refl in
    elim (Bool-cases (is_empty v)) [
      | inl e ↦ absurd (ne (contents-empty v (ground arith)))
      | inr m ↦ (
        (getstr_loop sz v []).1,
        ground arith,
        r.1,
        r.2,
        length-padded sz _ _ (omega (arith, length-take sz (contents v)))
            (omega (arith, length-take sz (contents v))),
      )
    ]
