-- ===== src/Reversi/Hint.antt =====
-- Marks on blank places change no answer of `can_put`.
use brs_bbs.Prelude.{
  ℕ, zero, suc, ◌+◌, ◌-◌, ◌≤◌, ◌<◌, ◌≡◌, refl, ◌⊎◌, inl, inr, Option, none, some, List, [], ◌∷◌,
  arith, ◌==◌, Bool-cases, length, length-set,
}
use brs_bbs.Prelude.Bytes.{at}
use brs_bbs.Reversi.{
  Board, black, white, spot, cell, put, is_blank, dirs, walk, rounds, ends_in, can_put_in,
  can_put_loop, can_put,
}
use brs_bbs.Reversi.Flip.{at-set_eq, at-set_ne}

-- The same pieces; NONE and HINT are not told apart.
pub record Similar (b b' : Board) : Type 0 where
  pub size : length b' ≡ length b
  pub cells : (p : ℕ) → (at b' p ≡ at b p) ⊎ ((at b p < black) × (at b' p < black))

pub Similar-refl : (b : Board) → Similar b b
Similar-refl b = record { size = refl; cells = λ p. inl refl }

pub Similar-trans : {a b c : Board} → Similar a b → Similar b c → Similar a c
Similar-trans s t = record {
  size = omega (arith, s.size, t.size);
  cells = λ p. ground (arith, s.cells p, t.cells p);
}

pub Similar-put :
    (b : Board) (x y v : ℕ)
    → cell b x y < black
    → spot x y < length b
    → v < black
    → Similar b (put b x y v)
Similar-put b x y v h l k = record {
  size = length-set b (spot x y) v;
  cells = λ q. elim (Bool-cases (q == spot x y)) [
    | inl s ↦
        let e : q ≡ spot x y = ground arith in
        rw e (inr (h, omega (arith, at-set_eq b (spot x y) v l)))
    | inr n ↦ inl (at-set_ne b (spot x y) v q n)
  ];
}

module _ {b b' : Board} (s : Similar b b') (who : ℕ) (player : (who ≡ black) ⊎ (who ≡ white)) where
  same_test : (p t : ℕ) → black ≤ t → (at b' p == t) ≡ (at b p == t)
  same_test p t h = ground (arith, s.cells p)

  walk-Similar : (n t : ℕ) (d : ℕ × ℕ) (x y : ℕ) → black ≤ t → walk n b' t d x y ≡ walk n b t d x y
  unfolding walk
  walk-Similar zero t d x y h = refl
  walk-Similar (suc n) t d x y h =
      let x' = x + d.0 - 1 in
      let y' = y + d.1 - 1 in rw (same_test (spot x' y') t h, walk-Similar n t d x' y' h) refl

  ends_in-Similar : (o : Option (ℕ × ℕ)) → ends_in b' who o ≡ ends_in b who o
  ends_in-Similar none = refl
  ends_in-Similar (some (x, y)) = same_test (spot x y) who (ground arith)

  can_put_in-Similar : (x y : ℕ) (d : ℕ × ℕ) → can_put_in b' who x y d ≡ can_put_in b who x y d
  unfolding can_put_in
  can_put_in-Similar x y d =
      let x' = x + d.0 - 1 in
      let y' = y + d.1 - 1 in
      elim (s.cells (spot x' y')) [
        | inr blank ↦ ground arith
        | inl e ↦ rw e (elim (Bool-cases (is_blank (cell b x' y'))) [
          | inl k ↦ rw k refl
          | inr k ↦
              let t = cell b x' y' in
              rw
                (
                  walk-Similar rounds t d x' y' (ground arith),
                  ends_in-Similar (walk rounds b t d x' y'),
                )
                refl
        ])
      ]

  can_put_loop-Similar :
      (x y : ℕ) (ds : List (ℕ × ℕ)) → can_put_loop b' who x y ds ≡ can_put_loop b who x y ds
  unfolding can_put_loop
  can_put_loop-Similar x y [] = refl
  can_put_loop-Similar x y (d ∷ ds) =
      rw (can_put_in-Similar x y d, can_put_loop-Similar x y ds) refl

  pub can_put-Similar : (x y : ℕ) → can_put b' who x y ≡ can_put b who x y
  unfolding can_put
  can_put-Similar x y =
      let blank : is_blank (cell b' x y) ≡ is_blank (cell b x y) =
        ground (arith, s.cells (spot x y)) in
      rw (blank, can_put_loop-Similar x y dirs) refl
