-- ===== src/Reversi/Walk.antt =====
-- The walk over the opponent's pieces ends inside the board: the dummies around it are blank.
use brs_bbs.Prelude.{
  ℕ, zero, suc, ◌+◌, ◌-◌, ◌≤◌, ◌<◌, ◌≡◌, inl, inr, Bool, true, false, ◌&&◌, ◌||◌, Option, none,
  some, arith, ◌==◌, if◌then◌else◌, Bool-cases, length,
}
use brs_bbs.Prelude.Bytes.{at}
use brs_bbs.Reversi.{Board, black, white, cell, walk, rounds}

abbrev pub is_edge : ℕ → ℕ → Bool
is_edge x y = x == 0 || x == 9 || y == 0 || y == 9

-- A board of the right size, with blank dummies and no other characters.
pub record IsFramed (b : Board) : Type 0 where
  pub size : length b ≡ 100
  pub dummies : (x y : ℕ) → x < 10 → y < 10 → is_edge x y ≡ true → cell b x y < black
  pub colors : (p : ℕ) → at b p ≤ white

-- One of the 64 places.
abbrev pub IsInside : ℕ → ℕ → Type 0
IsInside x y = (1 ≤ x) × (x ≤ 8) × (1 ≤ y) × (y ≤ 8)

-- One of the eight directions.
abbrev pub IsDir : ℕ × ℕ → Type 0
IsDir (dx, dy) = (dx ≤ 2) × (dy ≤ 2) × ((dx == 1 && (dy == 1)) ≡ false)

-- A chess piece lies inside.
pub chess-IsInside :
    {b : Board} → IsFramed b → (x y : ℕ) → x < 10 → y < 10 → black ≤ cell b x y → IsInside x y
chess-IsInside f x y hx hy h = ground (arith, f.dummies x y hx hy)

-- The steps that are left in a direction.
unfoldable pub steps_left : ℕ × ℕ → ℕ → ℕ → ℕ
steps_left (dx, dy) x y =
    if dx == 0 then x else if dx == 2 then 9 - x else if dy == 0 then y else 9 - y

-- Where a walk over a chess piece stops, and on what.
abbrev pub Stops : Board → ℕ → Option (ℕ × ℕ) → Type 0
Stops b temp none = ⊥
Stops b temp (some (x, y)) = (x < 10) × (y < 10) × ((cell b x y == temp) ≡ false)

walk_fuel-Stops :
    {b : Board}
    → IsFramed b
    → (n temp : ℕ) (d : ℕ × ℕ) (x y : ℕ) → IsDir d
    → IsInside x y
    → black ≤ temp
    → steps_left d x y ≤ n
    → Stops b temp (walk n b temp d x y)
unfolding walk steps_left
walk_fuel-Stops f zero temp (dx, dy) x y dir ins ch e = absurd (ground arith)
walk_fuel-Stops {b = b} f (suc n) temp (dx, dy) x y dir ins ch e =
    let x' = x + dx - 1 in
    let y' = y + dy - 1 in
    elim (Bool-cases (cell b x' y' == temp)) [
      | inr stop ↦ rw stop (omega arith, omega arith, stop)
      | inl on ↦
          let same : cell b x' y' ≡ temp = ground arith in
          let inside : IsInside x' y' =
            chess-IsInside f x' y' (omega arith) (omega arith) (omega arith) in
          rw on (walk_fuel-Stops f n temp (dx, dy) x' y' dir inside ch (ground arith))
    ]

-- On a board with blank dummies the walk of a direction over pieces of one colour, from one of the
-- 64 places, stops within nine steps, inside the array and on something else.
pub walk-Stops :
    {b : Board}
    → IsFramed b
    → (temp : ℕ) (d : ℕ × ℕ) (x y : ℕ) → IsDir d
    → IsInside x y
    → black ≤ temp
    → Stops b temp (walk rounds b temp d x y)
unfolding steps_left
walk-Stops f temp (dx, dy) x y dir ins ch =
    walk_fuel-Stops f rounds temp (dx, dy) x y dir ins ch (ground arith)
