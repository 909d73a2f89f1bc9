-- ===== src/Text/Ansi/Again.antt =====
-- A second pass of `strip_ansi` changes nothing.
use brs_bbs.Prelude.{
  ℕ, zero, suc, ◌+◌, ◌≤◌, ◌≡◌, refl, ap, ◌∙◌, inl, inr, true, false, List, [], ◌∷◌, ◌++◌,
  append_assoc, arith, ◌==◌, Bool-cases, List-cases, length, length-append, drop,
}
use brs_bbs.Text.Ansi.{
  StripFlag, esc_chr, is_escape_param, is_kept, scan_params, strip_loop, strip_ansi,
}

module _ (before : ℕ → ℕ) where
  -- What was scanned is scanned again, whatever comes behind its last byte.
  scan_params-again :
      (cs : List ℕ) (e : ℕ) (es rest : List ℕ)
      → (scan_params before cs).1 ≡ e ∷ es
      → scan_params before ((scan_params before cs).0 ++ (e ∷ rest))
        ≡ ((scan_params before cs).0, e ∷ rest)
  unfolding scan_params
  scan_params-again [] e es rest h = ground arith
  scan_params-again (c ∷ cs) e es rest h = elim (Bool-cases (is_escape_param before c)) [
    | inl p ↦ ground (arith, scan_params-again cs e es rest)
    | inr n ↦ ground arith
  ]

  strip_loop-text :
      (fuel : ℕ) (mode : StripFlag) (c : ℕ) (xs : List ℕ)
      → (c == esc_chr) ≡ false
      → length xs ≤ fuel
      → strip_loop before (suc fuel) mode (c ∷ xs)
        ≡ ((strip_loop before fuel mode xs).0 + 1, c ∷ (strip_loop before fuel mode xs).1)
  unfolding strip_loop
  strip_loop-text zero mode c [] n h = rw n
  strip_loop-text (suc fuel) mode c [] n h = rw n
  strip_loop-text fuel mode c (d ∷ xs) n h = rw n

  strip_loop-kept :
      (fuel : ℕ) (mode : StripFlag) (c d e : ℕ) (ps rest : List ℕ)
      → (c == esc_chr) ≡ true
      → (d == b'[') ≡ true
      → is_kept before mode e ≡ true
      → scan_params before ((ps ++ (e ∷ [])) ++ rest) ≡ (ps, e ∷ rest)
      → let kept = c ∷ d ∷ (ps ++ (e ∷ [])) in
        let r = strip_loop before fuel mode rest in
        strip_loop before (suc fuel) mode (kept ++ rest) ≡ (r.0 + length kept, kept ++ r.1)
  unfolding strip_loop
  strip_loop-kept fuel mode c d e ps rest ce de k scanned = rw (ce, de, scanned, k, scanned) refl

  strip_loop-nil : (fuel : ℕ) (mode : StripFlag) → strip_loop before fuel mode [] ≡ (0, [])
  unfolding strip_loop
  strip_loop-nil zero mode = refl
  strip_loop-nil (suc fuel) mode = refl

  -- a result that a second pass, with enough fuel, leaves alone
  abbrev Stable : StripFlag → ℕ × List ℕ → Type 0
  Stable mode r = (f : ℕ) → length r.1 ≤ f → strip_loop before f mode r.1 ≡ r

  -- A text byte in front, and a sequence in front, of what is stable.
  again-text :
      (mode : StripFlag) (c : ℕ) (r : ℕ × List ℕ)
      → (c == esc_chr) ≡ false
      → Stable mode r
      → Stable mode (r.0 + 1, c ∷ r.1)
  again-text mode c r n stable zero h = absurd (omega arith)
  again-text mode c r n stable (suc again) h =
      rw (strip_loop-text again mode c r.1 n (omega arith), stable again (omega arith)) refl

  again-kept :
      (mode : StripFlag) (c d e : ℕ) (es cs : List ℕ) (r : ℕ × List ℕ)
      → (c == esc_chr) ≡ true
      → (d == b'[') ≡ true
      → is_kept before mode e ≡ true
      → (scan_params before cs).1 ≡ e ∷ es
      → let kept = c ∷ d ∷ ((scan_params before cs).0 ++ (e ∷ [])) in
        Stable mode r → Stable mode (r.0 + length kept, kept ++ r.1)
  again-kept mode c d e es cs r ce de k n stable zero h = absurd (omega arith)
  again-kept mode c d e es cs r ce de k n stable (suc again) h =
      let ps = (scan_params before cs).0 in
      let scanned : scan_params before ((ps ++ (e ∷ [])) ++ r.1) ≡ (ps, e ∷ r.1) =
        rw (append_assoc ps (e ∷ []) r.1) (scan_params-again cs e es r.1 n) in
      let fits : length r.1 ≤ again = omega (arith, length-append (ps ++ (e ∷ [])) r.1) in
      strip_loop-kept again mode c d e ps r.1 ce de k scanned
      ∙ ap (λ q. (q.0 + length (c ∷ d ∷ (ps ++ (e ∷ []))), (c ∷ d ∷ (ps ++ (e ∷ []))) ++ q.1))
          (stable again fits)

  strip_loop-again :
      (fuel : ℕ) (mode : StripFlag) (src : List ℕ) → Stable mode (strip_loop before fuel mode src)
  unfolding strip_loop
  strip_loop-again zero mode src = λ f h. strip_loop-nil f mode
  strip_loop-again (suc fuel) mode [] = λ f h. strip_loop-nil f mode
  strip_loop-again (suc fuel) mode (c ∷ []) = elim (Bool-cases (c == esc_chr)) [
    | inr text ↦ rw text (again-text mode c (0, []) text (λ f h. strip_loop-nil f mode))
    | inl e ↦ rw e (λ f h. strip_loop-nil f mode)
  ]
  strip_loop-again (suc fuel) mode (c ∷ d ∷ cs) = elim (Bool-cases (c == esc_chr)) [
    | inr text ↦ rw text (again-text mode c _ text (strip_loop-again fuel mode (d ∷ cs)))
    | inl e ↦ elim (Bool-cases (d == b'[')) [
      | inr other ↦ rw (e, other) (strip_loop-again fuel mode cs)
      | inl q ↦ elim (List-cases (scan_params before cs).1) [
        | inl n ↦ rw (e, q, n) (λ f h. strip_loop-nil f mode)
        | inr (x, es, n) ↦ elim (Bool-cases (is_kept before mode x)) [
          | inl k ↦
              rw (e, q, n, k)
                (again-kept mode c d x es cs _ e q k n
                  (strip_loop-again fuel mode (drop 1 (scan_params before cs).1)))
          | inr k ↦ rw (e, q, n, k) (strip_loop-again fuel mode (drop 1 (scan_params before cs).1))
        ]
      ]
    ]
  ]

  -- For every mode, `strip_ansi` of what it stored stores the same again and returns the same count.
  pub strip_ansi_idempotent :
      (s : List ℕ) (mode : StripFlag)
      → strip_ansi before (strip_ansi before s mode).1 mode ≡ strip_ansi before s mode
  unfolding strip_ansi
  strip_ansi_idempotent s mode =
      strip_loop-again (length s) mode s (length (strip_loop before (length s) mode s).1)
        (omega arith)
