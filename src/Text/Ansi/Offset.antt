-- ===== src/Text/Ansi/Offset.antt =====
-- `strat_ansi`: the offset behind a number of characters, sequences not counted.
use brs_bbs.Prelude.{
  ℕ, zero, suc, ◌+◌, ◌≤◌, ◌<◌, ◌≡◌, refl, subst, inl, inr, List, [], ◌∷◌, arith, if◌then◌else◌,
  Bool-cases, length, take,
}
use brs_bbs.Text.Ansi.{
  Mode, no_ansi, Place, offset, missing, next_mode, is_shown, strat_loop, strat_ansi, noansi_loop,
  strlen_noansi,
}

module _ (before : ℕ → ℕ) where
  -- `pos` is the first place behind exactly `n` characters; or that many are missing.
  abbrev AtChar : Mode → ℕ → List ℕ → ℕ → Place → Type 0
  AtChar mode n s start (offset pos) =
      (k : ℕ) × (pos ≡ start + k)
      × (k ≤ length s)
      × (noansi_loop before mode (take k s) ≡ n)
      × ((j : ℕ) → j < k → noansi_loop before mode (take j s) < n)
  AtChar mode n s start (missing x) = (0 < x) × (noansi_loop before mode s + x ≡ n)

  least-cons :
      (mode : Mode) (n shown total : ℕ) (c : ℕ) (cs : List ℕ) (k : ℕ)
      → ((xs : List ℕ)
          → noansi_loop before mode (c ∷ xs)
            ≡ noansi_loop before (next_mode before mode c) xs + shown)
      → n + shown ≡ total
      → 0 < total
      → ((j : ℕ) → j < k → noansi_loop before (next_mode before mode c) (take j cs) < n)
      → (j : ℕ) → j < suc k
      → noansi_loop before mode (take j (c ∷ cs)) < total
  unfolding noansi_loop
  least-cons mode n shown total c cs k step sum pn least zero h = pn
  least-cons mode n shown total c cs k step sum pn least (suc j) h =
      omega (arith, step (take j cs), least j (omega arith))

  -- one byte in front
  AtChar-cons :
      (mode : Mode) (n shown total : ℕ) (c : ℕ) (cs : List ℕ) (start : ℕ) (p : Place)
      → ((xs : List ℕ)
          → noansi_loop before mode (c ∷ xs)
            ≡ noansi_loop before (next_mode before mode c) xs + shown)
      → n + shown ≡ total
      → 0 < total
      → AtChar (next_mode before mode c) n cs (start + 1) p
      → AtChar mode total (c ∷ cs) start p
  unfolding noansi_loop
  AtChar-cons mode n shown total c cs start (offset pos) step sum pn (k, e, l, m, least) = (
    suc k,
    omega arith,
    omega arith,
    omega (arith, step (take k cs)),
    least-cons mode n shown total c cs k step sum pn least,
  )
  AtChar-cons mode n shown total c cs start (missing x) step sum pn (p, m) =
      (p, omega (arith, step cs))

  noansi_loop-cons :
      (mode : Mode) (c : ℕ) (xs : List ℕ)
      → noansi_loop before mode (c ∷ xs)
        ≡ noansi_loop before (next_mode before mode c) xs
          + (if is_shown before mode c then 1 else 0)
  unfolding noansi_loop
  noansi_loop-cons mode c xs = ground arith

  noansi_loop-nil : (mode : Mode) → noansi_loop before mode [] ≡ 0
  unfolding noansi_loop
  noansi_loop-nil mode = refl

  noansi_loop-shown :
      (mode : Mode) (c shown : ℕ)
      → (if is_shown before mode c then 1 else 0) ≡ shown
      → (xs : List ℕ)
      → noansi_loop before mode (c ∷ xs) ≡ noansi_loop before (next_mode before mode c) xs + shown
  noansi_loop-shown mode c shown e xs = rw (← e) (noansi_loop-cons mode c xs)

  strat_loop-AtChar :
      (mode : Mode) (n : ℕ) (s : List ℕ) (start : ℕ)
      → AtChar mode n s start (strat_loop before mode n s start)
  unfolding strat_loop
  strat_loop-AtChar mode zero s start =
      (0, omega arith, omega arith, noansi_loop-nil mode, λ j h. absurd (omega arith))
  strat_loop-AtChar mode (suc n) [] start = (omega arith, omega (arith, noansi_loop-nil mode))
  strat_loop-AtChar mode (suc n) (c ∷ cs) start = elim (Bool-cases (is_shown before mode c)) [
    | inl e ↦ rw e (
        AtChar-cons mode n 1 (suc n) c cs start _ (noansi_loop-shown mode c 1 (rw e)) (omega arith)
          (omega arith) (strat_loop-AtChar (next_mode before mode c) n cs (start + 1)))
    | inr h ↦ rw h (
        AtChar-cons mode (suc n) 0 (suc n) c cs start _ (noansi_loop-shown mode c 0 (rw h))
          (omega arith) (omega arith)
          (strat_loop-AtChar (next_mode before mode c) (suc n) cs (start + 1)))
  ]

  -- What `strat_ansi` promises: the least offset in front of which `strlen_noansi` counts `n`
  -- characters; or, if the string has fewer, how many are missing.
  pub IsOffset : ℕ → List ℕ → Place → Type 0
  IsOffset n s (offset pos) =
      (pos ≤ length s)
      × (strlen_noansi before (take pos s) ≡ n)
      × ((j : ℕ) → j < pos → strlen_noansi before (take j s) < n)
  IsOffset n s (missing x) = (0 < x) × (strlen_noansi before s + x ≡ n)

  AtChar-IsOffset : (n : ℕ) (s : List ℕ) (p : Place) → AtChar no_ansi n s 0 p → IsOffset n s p
  unfolding strlen_noansi IsOffset
  AtChar-IsOffset n s (offset pos) (k, e, l, m, least) =
      let e' : k ≡ pos = omega arith in
      subst
        (λ q.
          (q ≤ length s)
          × (noansi_loop before no_ansi (take q s) ≡ n)
          × ((j : ℕ) → j < q → noansi_loop before no_ansi (take j s) < n))
        e' (l, m, least)
  AtChar-IsOffset n s (missing x) h = h

  -- For a count that is not negative, `strat_ansi` returns the least offset in front of which
  -- `strlen_noansi` counts that many characters; or, if the string has fewer, the negated number of
  -- those missing.
  pub strat_ansi-IsOffset : (n : ℕ) (s : List ℕ) → IsOffset n s (strat_ansi before n s)
  unfolding strat_ansi
  strat_ansi-IsOffset n s = AtChar-IsOffset n s _ (strat_loop-AtChar no_ansi n s 0)
