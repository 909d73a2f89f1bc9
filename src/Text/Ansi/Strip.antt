-- ===== src/Text/Ansi/Strip.antt =====
-- `strip_ansi`: its count, its agreement with `strlen_noansi`, and that a second pass is idle.
use brs_bbs.Prelude.{
  ℕ, zero, suc, ◌≤◌, ◌≡◌, refl, sym, ap, ◌∙◌, inl, inr, List, [], ◌∷◌, ◌++◌, arith, ◌==◌,
  Bool-cases, List-cases, length, length-append, drop,
}
use brs_bbs.Text.Ansi.{
  StripFlag, strip_all, no_ansi, param, esc_chr, is_escape_param, is_kept, scan_params, strip_loop,
  strip_ansi, next_mode, is_shown, noansi_loop, strlen_noansi,
}

module _ (before : ℕ → ℕ) where
  scan_params-le : (cs : List ℕ) → length (drop 1 (scan_params before cs).1) ≤ length cs
  unfolding scan_params
  scan_params-le [] = omega arith
  scan_params-le (c ∷ cs) = ground (arith, scan_params-le cs)

  -- From mode 2 on, `strlen_noansi` goes on behind the sequence.
  noansi_loop-param :
      (cs : List ℕ)
      → noansi_loop before param cs ≡ noansi_loop before no_ansi (drop 1 (scan_params before cs).1)
  unfolding noansi_loop scan_params next_mode is_shown
  noansi_loop-param [] = refl
  noansi_loop-param (c ∷ cs) = elim (Bool-cases (is_escape_param before c)) [
    | inl e ↦ rw e (noansi_loop-param cs)
    | inr n ↦ rw n
  ]

  strip_loop-noansi :
      (fuel : ℕ) (src : List ℕ)
      → length src ≤ fuel
      → (strip_loop before fuel strip_all src).0 ≡ noansi_loop before no_ansi src
  unfolding strip_loop noansi_loop next_mode is_shown is_kept
  strip_loop-noansi zero [] h = refl
  strip_loop-noansi zero (c ∷ cs) h = absurd (omega arith)
  strip_loop-noansi (suc fuel) [] h = refl
  strip_loop-noansi (suc fuel) (c ∷ []) h = ground arith
  strip_loop-noansi (suc fuel) (c ∷ d ∷ cs) h = elim (Bool-cases (c == esc_chr)) [
    | inr text ↦ rw (text, strip_loop-noansi fuel (d ∷ cs) (omega arith)) refl
    | inl e ↦ elim (Bool-cases (d == b'[')) [
      | inr other ↦ rw (e, other, strip_loop-noansi fuel cs (omega arith)) refl
      | inl q ↦ elim (List-cases (scan_params before cs).1) [
        | inl n ↦
            rw (e, q, n)
              (sym (noansi_loop-param cs ∙ ap (λ l. noansi_loop before no_ansi (drop 1 l)) n))
        | inr (x, es, n) ↦
            rw (e, q, n)
              (strip_loop-noansi fuel (drop 1 (scan_params before cs).1)
                  (omega (arith, scan_params-le cs))
                ∙ sym (noansi_loop-param cs))
      ]
    ]
  ]

  -- `strlen_noansi` is the count of `strip_ansi` where everything is stripped: the fuel is enough.
  pub strip_ansi-noansi : (s : List ℕ) → (strip_ansi before s strip_all).0 ≡ strlen_noansi before s
  unfolding strip_ansi strlen_noansi
  strip_ansi-noansi s = strip_loop-noansi (length s) s (omega arith)

  strip_loop-length :
      (fuel : ℕ) (mode : StripFlag) (src : List ℕ)
      → (strip_loop before fuel mode src).0 ≡ length (strip_loop before fuel mode src).1
  unfolding strip_loop
  strip_loop-length zero mode src = refl
  strip_loop-length (suc fuel) mode [] = refl
  strip_loop-length (suc fuel) mode (c ∷ []) = ground arith
  strip_loop-length (suc fuel) mode (c ∷ d ∷ cs) = elim (Bool-cases (c == esc_chr)) [
    | inr text ↦ rw text (omega (arith, strip_loop-length fuel mode (d ∷ cs)))
    | inl e ↦ elim (Bool-cases (d == b'[')) [
      | inr other ↦ rw (e, other) (strip_loop-length fuel mode cs)
      | inl q ↦ elim (List-cases (scan_params before cs).1) [
        | inl n ↦ rw (e, q, n) refl
        | inr (x, es, n) ↦ elim (Bool-cases (is_kept before mode x)) [
          | inl k ↦
              rw (e, q, n, k)
                (omega (
                  arith,
                  strip_loop-length fuel mode (drop 1 (scan_params before cs).1),
                  length-append ((scan_params before cs).0 ++ (x ∷ []))
                      (strip_loop before fuel mode (drop 1 (scan_params before cs).1)).1,
                ))
          | inr k ↦ rw (e, q, n, k) (strip_loop-length fuel mode (drop 1 (scan_params before cs).1))
        ]
      ]
    ]
  ]

  -- For every mode, the count that `strip_ansi` returns is the number of bytes that it stores.
  pub strip_ansi-length :
      (s : List ℕ) (mode : StripFlag)
      → (strip_ansi before s mode).0 ≡ length (strip_ansi before s mode).1
  unfolding strip_ansi
  strip_ansi-length s mode = strip_loop-length (length s) mode s
