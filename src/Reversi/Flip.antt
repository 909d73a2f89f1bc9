-- ===== src/Reversi/Flip.antt =====
-- A move of reversi turns pieces of the opponent over, and no other place changes.
use brs_bbs.Prelude.{
  ℕ, zero, suc, ◌+◌, ◌-◌, ◌≤◌, ◌<◌, ◌≡◌, refl, ◌⊎◌, inl, inr, false, List, [], ◌∷◌, arith, ◌==◌,
  if◌then◌else◌, Bool-cases, length, set, length-set,
}
use brs_bbs.Prelude.Bytes.{at, at-set}
use brs_bbs.Reversi.{
  Board, black, white, spot, cell, invert, walk, rounds, ends_in, flip_loop, apply_in, apply_loop,
}

unfoldable pub count : ℕ → List ℕ → ℕ
count c [] = 0
count c (x ∷ xs) = (if x == c then 1 else 0) + count c xs

pub count-set :
    (c : ℕ) (b : List ℕ) (p v : ℕ)
    → p < length b
    → count c (set b p v) + (if at b p == c then 1 else 0) ≡ count c b + (if v == c then 1 else 0)
unfolding count
count-set c [] p v h = absurd (omega arith)
count-set c (x ∷ xs) zero v h = omega arith
count-set c (x ∷ xs) (suc p) v h = omega (arith, count-set c xs p v (omega arith))

-- What lies outside the array reads as 0.
pub at-below : (b : List ℕ) (p : ℕ) → 1 ≤ at b p → p < length b
at-below [] p h = absurd (omega arith)
at-below (x ∷ xs) zero h = omega arith
at-below (x ∷ xs) (suc p) h = omega (arith, at-below xs p h)

at-beyond : (b : List ℕ) (p : ℕ) → length b ≤ p → at b p ≡ 0
at-beyond [] p h = refl
at-beyond (x ∷ xs) zero h = absurd (omega arith)
at-beyond (x ∷ xs) (suc p) h = at-beyond xs p (omega arith)

pub at-set_eq : (b : List ℕ) (p v : ℕ) → p < length b → at (set b p v) p ≡ v
at-set_eq b p v h = ground (arith, at-set b p v p h)

pub at-set_ne : (b : List ℕ) (p v q : ℕ) → (q == p) ≡ false → at (set b p v) q ≡ at b q
at-set_ne [] p v q n = refl
at-set_ne (x ∷ xs) zero v zero n = absurd (ground arith)
at-set_ne (x ∷ xs) zero v (suc q) n = refl
at-set_ne (x ∷ xs) (suc p) v zero n = refl
at-set_ne (x ∷ xs) (suc p) v (suc q) n = at-set_ne xs p v q (ground arith)

-- `b'` is `b` with some of the opponent's pieces turned over.
pub record Turned (own : ℕ) (b b' : Board) : Type 0 where
  pub size : length b' ≡ length b
  pub cells : (p : ℕ) → (at b' p ≡ at b p) ⊎ ((at b p ≡ invert own) × (at b' p ≡ own))
  pub more : count own b ≤ count own b'
  pub total : count own b' + count (invert own) b' ≡ count own b + count (invert own) b

module _ (own : ℕ) (player : (own ≡ black) ⊎ (own ≡ white)) where
  Turned-refl : (b : Board) → Turned own b b
  Turned-refl b = record { size = refl; cells = λ p. inl refl; more = omega arith; total = refl }

  Turned-trans : {a b c : Board} → Turned own a b → Turned own b c → Turned own a c
  Turned-trans s t = record {
    size = omega (arith, s.size, t.size);
    cells = λ p. ground (arith, s.cells p, t.cells p);
    more = omega (arith, s.more, t.more);
    total = omega (arith, s.total, t.total);
  }

  pub is_player : (2 ≤ own) × (2 ≤ invert own) × ((own == invert own) ≡ false)
  is_player = elim player [ inl e ↦ rw e (ground arith) | inr e ↦ rw e (ground arith) ]

  -- One piece turned over.
  pub Turned-set :
      (b : Board) (p : ℕ)
      → at b p ≡ invert own
      → Turned own b (set b p own) × (count own b < count own (set b p own))
  Turned-set b p e =
      let pl = is_player in
      let here : p < length b = at-below b p (omega (arith, is_player, e)) in
      let co = count-set own b p own here in
      let cp = count-set (invert own) b p own here in
      (
        record {
          size = length-set b p own;
          cells = λ q. elim (Bool-cases (q == p)) [
            | inl s ↦ let t : q ≡ p = ground arith in rw t (inr (e, at-set_eq b p own here))
            | inr n ↦ inl (at-set_ne b p own q n)
          ];
          more = ground (arith, co, pl);
          total = ground (arith, co, cp, pl);
        },
        ground (arith, co, pl),
      )

  pub flip_loop-Turned :
      (n : ℕ) (b : Board) (d : ℕ × ℕ) (x y : ℕ)
      → Turned own b (flip_loop n b own (invert own) d x y)
  unfolding flip_loop
  flip_loop-Turned zero b d x y = Turned-refl b
  flip_loop-Turned (suc n) b d x y =
      let x' = x + d.0 - 1 in
      let y' = y + d.1 - 1 in
      elim (Bool-cases (cell b x' y' == invert own)) [
        | inr stay ↦ rw stay (Turned-refl b)
        | inl turn ↦
            let e : cell b x' y' ≡ invert own = ground arith in
            rw turn (Turned-trans ((Turned-set b (spot x' y') e).0) (flip_loop-Turned n _ d x' y'))
      ]

  pub apply_in-Turned : (b : Board) (x y : ℕ) (d : ℕ × ℕ) → Turned own b (apply_in b own x y d)
  unfolding apply_in
  apply_in-Turned b x y d = elim (Bool-cases (ends_in b own (walk rounds b (invert own) d x y))) [
    | inl turn ↦ rw turn (flip_loop-Turned rounds b d x y)
    | inr stay ↦ rw stay (Turned-refl b)
  ]

  pub apply_loop-Turned :
      (b : Board) (x y : ℕ) (ds : List (ℕ × ℕ)) → Turned own b (apply_loop b own x y ds)
  unfolding apply_loop
  apply_loop-Turned b x y [] = Turned-refl b
  apply_loop-Turned b x y (d ∷ ds) =
      Turned-trans (apply_in-Turned b x y d) (apply_loop-Turned (apply_in b own x y d) x y ds)

-- `reversi_apply_step` of a legal move.
abbrev pub Moves : ℕ → ℕ → ℕ → Board → Board → Type 0
Moves own x y b b' =
    (cell b' x y ≡ own)
    × ((p : ℕ)
        → (p == spot x y) ≡ false
        → (at b' p ≡ at b p) ⊎ ((at b p ≡ invert own) × (at b' p ≡ own)))
    × (count own b + 2 ≤ count own b')
    × (count own b' + count (invert own) b' ≡ count own b + count (invert own) b + 1)
