-- ===== src/Reversi/Lines.antt =====
-- Which pieces a move turns over: in each direction, the run of the opponent's that an own piece closes.
use brs_bbs.Prelude.{
  ℕ, zero, suc, ◌+◌, ◌-◌, ◌≤◌, ◌<◌, ◌≡◌, refl, ap₂, ◌∙◌, ◌⊎◌, inl, inr, Bool, true, false, ◌||◌,
  List, [], ◌∷◌, arith, ◌==◌, if◌then◌else◌, Bool-cases,
}
use brs_bbs.Prelude.Bytes.{at}
use brs_bbs.Reversi.{
  Board, black, white, spot, cell, put, invert, dirs, walk, rounds, ends_in, can_put, flip_loop,
  apply_in, apply_loop, step_normal, apply_step,
}
use brs_bbs.Reversi.Walk.{IsFramed, IsInside, IsDir, chess-IsInside, steps_left}
use brs_bbs.Reversi.Flip.{at-set_eq, at-set_ne, Moves, is_player, apply_in-Turned}
use brs_bbs.Reversi.Move.{AreDirs, IsDirs, Turned-IsFramed, put-IsFramed, apply_step-Moves}

-- From (x, y) on in a direction: `m` pieces of the opponent, then one of the player.
abbrev pub Run : ℕ → Board → ℕ → ℕ × ℕ → ℕ → ℕ → Type 0
Run zero b own d x y = cell b (x + d.0 - 1) (y + d.1 - 1) ≡ own
Run (suc m) b own d x y =
    (cell b (x + d.0 - 1) (y + d.1 - 1) ≡ invert own) × Run m b own d (x + d.0 - 1) (y + d.1 - 1)

-- Whether a place is one of the next `m` in the direction.
abbrev pub is_next : ℕ → ℕ × ℕ → ℕ → ℕ → ℕ → Bool
is_next zero d x y p = false
is_next (suc m) d x y p =
    (p == spot (x + d.0 - 1) (y + d.1 - 1)) || is_next m d (x + d.0 - 1) (y + d.1 - 1) p

-- What one direction does: exactly a run that is closed is turned over; without one nothing is.
abbrev pub Line : ℕ → ℕ → ℕ → ℕ × ℕ → Board → Board → Type 0
Line own x y d b b' =
    ((m : ℕ) × Run m b own d x y
      × ((p : ℕ) → at b' p ≡ (if is_next m d x y p then own else at b p)))
    ⊎ (((m : ℕ) → Run m b own d x y → ⊥) × (b' ≡ b))

-- All directions, one after the other.
abbrev pub Lines : ℕ → ℕ → ℕ → List (ℕ × ℕ) → Board → Board → Type 0
Lines own x y [] b b' = b' ≡ b
Lines own x y (d ∷ ds) b b' = (c : Board) × Line own x y d b c × Lines own x y ds c b'

module _ (own : ℕ) (player : (own ≡ black) ⊎ (own ≡ white)) where
  -- A step to a piece stays inside, and comes nearer to the edge.
  closer :
      {b : Board}
      → IsFramed b
      → (x y : ℕ) (d : ℕ × ℕ) → IsInside x y
      → IsDir d
      → black ≤ cell b (x + d.0 - 1) (y + d.1 - 1)
      → IsInside (x + d.0 - 1) (y + d.1 - 1)
        × (steps_left d (x + d.0 - 1) (y + d.1 - 1) < steps_left d x y)
  unfolding steps_left
  closer f x y d ins dir ch =
      let inside =
        chess-IsInside f (x + d.0 - 1) (y + d.1 - 1) (omega (arith, ins, dir))
          (omega (arith, ins, dir)) ch in
      (inside, ground (arith, ins, dir, inside))

  apart :
      (u v a c : ℕ) (d : ℕ × ℕ)
      → IsInside u v
      → IsInside a c
      → steps_left d u v < steps_left d a c
      → (spot u v == spot a c) ≡ false
  apart u v a c d ins ins' l = elim (Bool-cases (spot u v == spot a c)) [
    | inr n ↦ n
    | inl e ↦
        let same : spot u v ≡ spot a c = ground arith in
        let u' : u ≡ a = omega (arith, same, ins, ins') in
        let v' : v ≡ c = omega (arith, same, ins, ins') in
        absurd (omega (arith, l, ap₂ (steps_left d) u' v'))
  ]

  -- A piece put down behind a run leaves it as it is.
  Run-put :
      (m : ℕ) {b : Board}
      → IsFramed b
      → (u v a c : ℕ) (d : ℕ × ℕ) → IsInside u v
      → IsInside a c
      → IsDir d
      → steps_left d u v ≤ steps_left d a c
      → Run m b own d u v
      → Run m (put b a c own) own d u v
  Run-put zero {b = b} f u v a c d ins ins' dir l run =
      let pl = is_player own player in
      let (inside, near) = closer f u v d ins dir (omega (arith, run, pl)) in
      at-set_ne b (spot a c) own (spot (u + d.0 - 1) (v + d.1 - 1))
        (apart _ _ a c d inside ins' (omega (arith, near, l)))
      ∙ run
  Run-put (suc m) {b = b} f u v a c d ins ins' dir l (first, run) =
      let pl = is_player own player in
      let (inside, near) = closer f u v d ins dir (omega (arith, first, pl)) in
      (
        at-set_ne b (spot a c) own (spot (u + d.0 - 1) (v + d.1 - 1))
              (apart _ _ a c d inside ins' (omega (arith, near, l)))
            ∙ first,
        Run-put m f (u + d.0 - 1) (v + d.1 - 1) a c d inside ins' dir (omega (arith, near, l)) run,
      )

  Run-short :
      (m : ℕ) {b : Board}
      → IsFramed b
      → (x y : ℕ) (d : ℕ × ℕ) → IsInside x y
      → IsDir d
      → Run m b own d x y
      → m < steps_left d x y
  Run-short zero f x y d ins dir run =
      let pl = is_player own player in
      let (_, near) = closer f x y d ins dir (omega (arith, run, pl)) in omega (arith, near)
  Run-short (suc m) f x y d ins dir (first, run) =
      let pl = is_player own player in
      let (inside, near) = closer f x y d ins dir (omega (arith, first, pl)) in
      omega (arith, near, Run-short m f (x + d.0 - 1) (y + d.1 - 1) d inside dir run)

  flip_loop-Run :
      (n m : ℕ) {b : Board}
      → IsFramed b
      → (x y : ℕ) (d : ℕ × ℕ) → IsInside x y
      → IsDir d
      → m ≤ n
      → Run m b own d x y
      → (p : ℕ)
      → at (flip_loop n b own (invert own) d x y) p ≡ (if is_next m d x y p then own else at b p)
  unfolding flip_loop
  flip_loop-Run zero zero f x y d ins dir l run p = refl
  flip_loop-Run zero (suc m) f x y d ins dir l run p = absurd (omega arith)
  flip_loop-Run (suc n) zero {b = b} f x y d ins dir l run p =
      let pl = is_player own player in
      let stop : (cell b (x + d.0 - 1) (y + d.1 - 1) == invert own) ≡ false =
        ground (arith, run, pl) in
      rw stop refl
  flip_loop-Run (suc n) (suc m) {b = b} f x y d ins dir l (first, run) p =
      let x' = x + d.0 - 1 in
      let y' = y + d.1 - 1 in
      let pl = is_player own player in
      let (inside, near) = closer f x y d ins dir (omega (arith, first, pl)) in
      let turn : (cell b x' y' == invert own) ≡ true = ground (arith, first) in
      let rest =
        flip_loop-Run n m (put-IsFramed own player f x' y' inside) x' y' d inside dir (omega arith)
          (Run-put m f x' y' x' y' d inside inside dir (omega arith) run) p in
      let here = at-set_eq b (spot x' y') own (omega (arith, f.size, inside)) in
      rw turn (
        rest ∙ elim (Bool-cases (p == spot x' y')) [
          | inl e ↦
              let p' : p ≡ spot x' y' = ground arith in
              let own' : at (put b x' y' own) p ≡ own = rw p' here in
              rw (own', e) (either (is_next m d x' y' p))
          | inr n ↦
              let same : at (put b x' y' own) p ≡ at b p = at-set_ne b (spot x' y') own p n in
              rw (same, n) refl
        ])
    where
      either : (t : Bool) → (if t then own else own) ≡ own
      either true = refl
      either false = refl

  -- The walk finds exactly the runs.
  walk-Run :
      (n : ℕ) (b : Board) (x y : ℕ) (d : ℕ × ℕ)
      → ends_in b own (walk n b (invert own) d x y) ≡ true
      → (m : ℕ) × Run m b own d x y × (m < n)
  unfolding walk
  walk-Run zero b x y d h = absurd (ground arith)
  walk-Run (suc n) b x y d h =
      let x' = x + d.0 - 1 in
      let y' = y + d.1 - 1 in
      elim (Bool-cases (cell b x' y' == invert own)) [
        | inl on ↦
            let (m, run, l) = walk-Run n b x' y' d (rw on at h) in
            (suc m, (ground (arith, on), run), omega (arith, l))
        | inr stop ↦
            let closed : (cell b x' y' == own) ≡ true = rw stop at h in
            (0, ground (arith, closed), omega arith)
      ]

  Run-walk :
      (n m : ℕ) (b : Board) (x y : ℕ) (d : ℕ × ℕ)
      → Run m b own d x y
      → m < n
      → ends_in b own (walk n b (invert own) d x y) ≡ true
  unfolding walk
  Run-walk zero m b x y d run l = absurd (omega arith)
  Run-walk (suc n) zero b x y d run l =
      let pl = is_player own player in
      let stop : (cell b (x + d.0 - 1) (y + d.1 - 1) == invert own) ≡ false =
        ground (arith, run, pl) in
      rw stop (ground (arith, run))
  Run-walk (suc n) (suc m) b x y d (first, run) l =
      let on : (cell b (x + d.0 - 1) (y + d.1 - 1) == invert own) ≡ true = ground (arith, first) in
      rw on (Run-walk n m b (x + d.0 - 1) (y + d.1 - 1) d run (omega arith))

  apply_in-Line :
      {b : Board}
      → IsFramed b
      → (x y : ℕ) (d : ℕ × ℕ) → IsInside x y
      → IsDir d
      → Line own x y d b (apply_in b own x y d)
  unfolding apply_in
  apply_in-Line {b = b} f x y d ins dir =
      elim (Bool-cases (ends_in b own (walk rounds b (invert own) d x y))) [
        | inl t ↦
            let (m, run, l) = walk-Run rounds b x y d t in
            rw t (inl (m, run, flip_loop-Run rounds m f x y d ins dir (omega arith) run))
        | inr t ↦ rw t (
            inr (
              λ m run.
                  let l = Run-short m f x y d ins dir run in
                  let few : m < rounds = at_most_nine m x y d l ins in
                  absurd (ground (arith, t, Run-walk rounds m b x y d run few)),
              refl,
            ))
      ]
    where
      at_most_nine : (m x y : ℕ) (d : ℕ × ℕ) → m < steps_left d x y → IsInside x y → m < rounds
      at_most_nine m x y d l ins = unfold steps_left in ground (arith, l, ins)

  apply_loop-Lines :
      {b : Board}
      → IsFramed b
      → (x y : ℕ) (ds : List (ℕ × ℕ)) → IsInside x y
      → AreDirs ds
      → Lines own x y ds b (apply_loop b own x y ds)
  unfolding apply_loop
  apply_loop-Lines f x y [] ins dirs' = refl
  apply_loop-Lines {b = b} f x y (d ∷ ds) ins (dir, dirs') =
      let c = apply_in b own x y d in
      (
        c,
        apply_in-Line f x y d ins dir,
        apply_loop-Lines {b = c} (Turned-IsFramed own player f (apply_in-Turned own player b x y d))
            x y ds ins dirs',
      )

  -- On a board with blank dummies, a move that `can_put` allows turns over, in one direction after the
  -- other, exactly each run of the opponent's pieces from the place on that a piece of the player
  -- closes, and then puts the piece down. So at least one piece is turned over, every other place
  -- either stays or was the opponent's and is now the player's, there is one piece more on the board,
  -- and the dummies stay blank.
  pub apply_step-Lines :
      (b : Board) (x y : ℕ)
      → IsFramed b
      → IsInside x y
      → can_put b own x y ≡ true
      → let b' = apply_step b (record { type = step_normal; color = own; r = x; c = y }) in
        ((turned : Board) × Lines own x y dirs b turned × (b' ≡ put turned x y own))
        × Moves own x y b b'
        × IsFramed b'
  unfolding apply_step
  apply_step-Lines b x y f ins h =
      let (moves, framed) = apply_step-Moves own player b x y f ins h in
      (
        (apply_loop b own x y dirs, apply_loop-Lines f x y dirs ins (IsDirs own player), refl),
        moves,
        framed,
      )
