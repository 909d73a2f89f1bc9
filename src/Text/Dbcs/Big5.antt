-- ===== src/Text/Dbcs/Big5.antt =====
-- `strip_nonebig5`: only printable ASCII and whole double-byte characters are left.
use brs_bbs.Prelude.{
  ℕ, ◌+◌, ◌≤◌, ◌<◌, ◌≡◌, refl, ap, ◌⊎◌, inl, inr, true, false, List, [], ◌∷◌, arith, leb, ◌==◌,
  leb→le, Bool-cases, take-whole, within, length, take, length-take,
}
use brs_bbs.Prelude.Bytes.{AreBytes, AreBytes-take}
use brs_bbs.Text.Dbcs.{is_big5_trail, big5_step, big5_loop, strip_nonebig5}

-- Bytes from 32 to 127, and pairs of a lead byte from 128 to 254 and a trail byte.
abbrev pub IsBig5 : List ℕ → Type 0
IsBig5 [] = Unit {0}
IsBig5 (c ∷ []) = within 32 127 c ≡ true
IsBig5 (c ∷ d ∷ cs) =
    ((within 32 127 c ≡ true) × IsBig5 (d ∷ cs))
    ⊎ ((128 ≤ c) × (c < 255) × (is_big5_trail d ≡ true) × IsBig5 cs)

IsBig5-cons : (c : ℕ) (xs : List ℕ) → within 32 127 c ≡ true → IsBig5 xs → IsBig5 (c ∷ xs)
IsBig5-cons c [] h k = h
IsBig5-cons c (d ∷ xs) h k = inl (h, k)

big5_step-IsBig5 :
    (c d : ℕ) (next behind further : List ℕ)
    → c < 256
    → IsBig5 next
    → IsBig5 behind
    → IsBig5 further
    → IsBig5 (big5_step c d next behind further)
unfolding big5_step
big5_step-IsBig5 c d next behind further w n b f = elim (Bool-cases (within 32 127 c)) [
  | inl e ↦ rw e (IsBig5-cons c next e n)
  | inr a ↦ elim (Bool-cases (c == 255)) [
    | inl iac ↦
        rw (a, iac) (elim (Bool-cases (within 251 254 d)) [ inl e ↦ rw e f | inr e ↦ rw e n ])
    | inr other ↦
        rw (a, other)
          (elim (Bool-cases (leb 128 c)) [
            | inr e ↦ rw e n
            | inl lead ↦ rw lead (elim (Bool-cases (is_big5_trail d)) [
              | inr e ↦ rw e n
              | inl e ↦ rw e (inr (leb→le _ _ lead, ground arith, e, b))
            ])
          ])
  ]
]

big5_loop-IsBig5 : (s : List ℕ) → AreBytes s → IsBig5 (big5_loop s)
unfolding big5_loop
big5_loop-IsBig5 [] w = tt
big5_loop-IsBig5 (c ∷ []) w = elim (Bool-cases (within 32 127 c)) [
  | inl e ↦ rw e e
  | inr e ↦ rw e tt
]
big5_loop-IsBig5 (c ∷ d ∷ []) (wc, w) =
    big5_step-IsBig5 c d _ [] [] wc (big5_loop-IsBig5 (d ∷ []) w) tt tt
big5_loop-IsBig5 (c ∷ d ∷ e ∷ cs) (wc, w) =
    big5_step-IsBig5 c d _ _ _ wc (big5_loop-IsBig5 (d ∷ e ∷ cs) w) (big5_loop-IsBig5 (e ∷ cs) w.1)
      (big5_loop-IsBig5 cs w.1.1)

-- A character in front is stored.
big5_step-stored :
    (c d : ℕ) (cs next behind further : List ℕ)
    → IsBig5 (c ∷ d ∷ cs)
    → (IsBig5 (d ∷ cs) → next ≡ d ∷ cs)
    → (IsBig5 cs → behind ≡ cs)
    → big5_step c d next behind further ≡ c ∷ d ∷ cs
unfolding big5_step
big5_step-stored c d cs next behind further (inl (a, k)) h g = rw a (ap (λ r. c ∷ r) (h k))
big5_step-stored c d cs next behind further (inr (lead, l, t, k)) h g =
    let a : within 32 127 c ≡ false = ground arith in
    let o : (c == 255) ≡ false = ground arith in
    let e : leb 128 c ≡ true = ground arith in rw (a, o, e, t) (ap (λ r. c ∷ d ∷ r) (g k))

big5_loop-stored : (s : List ℕ) → IsBig5 s → big5_loop s ≡ s
unfolding big5_loop
big5_loop-stored [] k = refl
big5_loop-stored (c ∷ []) k = rw k
big5_loop-stored (c ∷ d ∷ []) k =
    big5_step-stored c d [] _ [] _ k (big5_loop-stored (d ∷ [])) (λ _. refl)
big5_loop-stored (c ∷ d ∷ e ∷ cs) k =
    big5_step-stored c d (e ∷ cs) _ _ _ k (big5_loop-stored (d ∷ e ∷ cs))
      (big5_loop-stored (e ∷ cs))

length-big5_step :
    (c d n : ℕ) (next behind further : List ℕ)
    → length next ≤ n + 1
    → length behind ≤ n
    → length further ≤ n
    → length (big5_step c d next behind further) ≤ n + 2
unfolding big5_step
length-big5_step c d n next behind further h k l = ground arith

length-big5_loop : (s : List ℕ) → length (big5_loop s) ≤ length s
unfolding big5_loop
length-big5_loop [] = omega arith
length-big5_loop (c ∷ []) = ground arith
length-big5_loop (c ∷ d ∷ []) = omega (
  arith,
  length-big5_step c d 0 (big5_loop (d ∷ [])) [] [] (omega (arith, length-big5_loop (d ∷ [])))
      (omega arith) (omega arith),
)
length-big5_loop (c ∷ d ∷ e ∷ cs) = omega (
  arith,
  length-big5_step c d (length (e ∷ cs)) (big5_loop (d ∷ e ∷ cs)) (big5_loop (e ∷ cs))
      (big5_loop cs) (omega (arith, length-big5_loop (d ∷ e ∷ cs))) (length-big5_loop (e ∷ cs))
      (omega (arith, length-big5_loop cs)),
)

-- `strip_nonebig5` leaves a string of printable ASCII and whole double-byte characters, no longer
-- than the buffer; and a string of such characters that fits the buffer it leaves as it is.
pub strip_nonebig5-IsBig5 :
    (s : List ℕ) (maxlen : ℕ)
    → AreBytes s
    → IsBig5 (strip_nonebig5 s maxlen)
      × (length (strip_nonebig5 s maxlen) ≤ maxlen)
      × (IsBig5 s → length s ≤ maxlen → strip_nonebig5 s maxlen ≡ s)
unfolding strip_nonebig5
strip_nonebig5-IsBig5 s maxlen w = (
  big5_loop-IsBig5 (take maxlen s) (AreBytes-take maxlen s w),
  omega (arith, length-big5_loop (take maxlen s), length-take maxlen s),
  λ k h. rw (take-whole maxlen s h) (big5_loop-stored s k),
)
