-- ===== src/Text/Dbcs/Whole.antt =====
-- `DBCS_safe_trim`: no half of a double-byte character is left at the end; and `DBCS_Status` behind
-- the end of a string.
use brs_bbs.Prelude.{
  ℕ, zero, suc, ◌+◌, ◌-◌, ◌≤◌, ◌<◌, ◌≡◌, refl, sym, ap, ◌∙◌, inl, inr, Bool, true, false, not, List,
  [], ◌∷◌, arith, ltb, leb, if◌then◌else◌, Bool-cases, length, take,
}
use brs_bbs.Text.Dbcs.{
  DbcsStatus, ascii, leading, trailing, next_status, status_loop, dbcs_status, safe_trim,
}

-- A string of ASCII characters and whole double-byte characters.
pub is_whole : List ℕ → Bool
is_whole [] = true
is_whole (c ∷ []) = not (leb 0x80 c)
is_whole (c ∷ d ∷ cs) =
    let single = is_whole (d ∷ cs) in
    let double = is_whole cs in if leb 0x80 c then double else single

abbrev is_leading : DbcsStatus → Bool
is_leading leading = true
is_leading _ = false

-- The status of the last byte, from a status between two characters.
status_loop-is_whole :
    (s : List ℕ)
    → (is_leading (status_loop (length s) s ascii) ≡ not (is_whole s))
      × (is_leading (status_loop (length s) s trailing) ≡ not (is_whole s))
unfolding is_whole status_loop next_status
status_loop-is_whole [] = (refl, refl)
status_loop-is_whole (c ∷ []) = (ground arith, ground arith)
status_loop-is_whole (c ∷ d ∷ cs) = elim (Bool-cases (leb 0x80 c)) [
  | inl e ↦ ground (arith, e, status_loop-is_whole cs)
  | inr n ↦ ground (arith, n, status_loop-is_whole (d ∷ cs))
]

is_whole-ascii : (c : ℕ) (xs : List ℕ) → leb 0x80 c ≡ false → is_whole (c ∷ xs) ≡ is_whole xs
unfolding is_whole
is_whole-ascii c [] e = rw e
is_whole-ascii c (d ∷ xs) e = rw e

-- All but the last byte of two or more.
take-last :
    (x y : ℕ) (zs : List ℕ)
    → take (length (x ∷ y ∷ zs) - 1) (x ∷ y ∷ zs) ≡ x ∷ take (length (y ∷ zs) - 1) (y ∷ zs)
take-last x y zs =
    let e : length (x ∷ y ∷ zs) - 1 ≡ suc (length (y ∷ zs) - 1) = omega arith in
    ap (λ n. take n (x ∷ y ∷ zs)) e

is_whole-double : (c d : ℕ) (xs : List ℕ) → leb 0x80 c ≡ true → is_whole (c ∷ d ∷ xs) ≡ is_whole xs
unfolding is_whole
is_whole-double c d xs e = rw e

-- Only the last byte can be half a character.
is_whole-take : (s : List ℕ) → is_whole s ≡ false → is_whole (take (length s - 1) s) ≡ true
unfolding is_whole
is_whole-take [] h = refl
is_whole-take (c ∷ []) h = refl
is_whole-take (c ∷ d ∷ []) h = elim (Bool-cases (leb 0x80 c)) [
  | inl e ↦ ground arith
  | inr n ↦ ground arith
]
is_whole-take (c ∷ d ∷ e ∷ cs) h = elim (Bool-cases (leb 0x80 c)) [
  | inl lead ↦
      rw
        (
          take-last c d (e ∷ cs),
          take-last d e cs,
          is_whole-double c d (take (length (e ∷ cs) - 1) (e ∷ cs)) lead,
        )
        (is_whole-take (e ∷ cs) (sym (is_whole-double c d (e ∷ cs) lead) ∙ h))
  | inr n ↦
      rw (take-last c d (e ∷ cs), is_whole-ascii c (take (length (d ∷ e ∷ cs) - 1) (d ∷ e ∷ cs)) n)
        (is_whole-take (d ∷ e ∷ cs) (sym (is_whole-ascii c (d ∷ e ∷ cs) n) ∙ h))
]

-- What `DBCS_safe_trim` makes of the status of the last byte.
trimmed : (s : List ℕ) → DbcsStatus → List ℕ
trimmed s leading = take (length s - 1) s
trimmed s _ = s

trimmed-is_whole :
    (s : List ℕ) (sts : DbcsStatus)
    → is_leading sts ≡ not (is_whole s)
    → (is_whole (trimmed s sts) ≡ true)
      × (trimmed s sts ≡ (if is_whole s then s else take (length s - 1) s))
unfolding trimmed
trimmed-is_whole s leading h =
    let n : is_whole s ≡ false = ground arith in rw n (is_whole-take s n, refl)
trimmed-is_whole s ascii h = let w : is_whole s ≡ true = ground arith in (w, rw w)
trimmed-is_whole s trailing h = let w : is_whole s ≡ true = ground arith in (w, rw w)

safe_trim-trimmed : (s : List ℕ) → safe_trim s ≡ trimmed s (status_loop (length s) s ascii)
unfolding safe_trim dbcs_status trimmed status_loop next_status
safe_trim-trimmed [] = refl
safe_trim-trimmed (c ∷ cs) =
    let e : length (c ∷ cs) - 1 + 1 ≡ length (c ∷ cs) = omega arith in
    let n : ltb (length (c ∷ cs)) 1 ≡ false = ground arith in rw (n, e) refl

-- `DBCS_safe_trim` takes the last byte off a string exactly if the string does not end in a whole
-- character, and then all that is left is whole.
pub safe_trim-is_whole :
    (s : List ℕ)
    → (is_whole (safe_trim s) ≡ true)
      × (safe_trim s ≡ (if is_whole s then s else take (length s - 1) s))
safe_trim-is_whole s = rw (safe_trim-trimmed s) (trimmed-is_whole s _ (status_loop-is_whole s).0)

status_loop-behind :
    (n : ℕ) (s : List ℕ) (sts : DbcsStatus)
    → length s < n
    → status_loop n s sts ≡ next_status 0 (status_loop (length s) s sts)
unfolding status_loop
status_loop-behind zero s sts h = absurd (omega arith)
status_loop-behind (suc n) [] sts h = refl
status_loop-behind (suc n) (c ∷ cs) sts h =
    status_loop-behind n cs (next_status c sts) (omega arith)

next_status-nul :
    (sts : DbcsStatus) (whole : Bool)
    → is_leading sts ≡ not whole
    → next_status 0 sts ≡ (if whole then ascii else trailing)
unfolding next_status
next_status-nul sts whole h = ground arith

-- At any place behind the string, `DBCS_Status` returns the status of its NUL, ASCII behind a whole
-- character, and not that of its last byte.
pub dbcs_status-behind :
    (s : List ℕ) (pos : ℕ)
    → length s ≤ pos
    → dbcs_status s pos ≡ (if is_whole s then ascii else trailing)
unfolding dbcs_status
dbcs_status-behind s pos h =
    rw (status_loop-behind (pos + 1) s ascii (omega arith))
      (next_status-nul _ (is_whole s) (status_loop-is_whole s).0)
