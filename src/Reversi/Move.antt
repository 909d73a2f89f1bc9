-- ===== src/Reversi/Move.antt =====
-- What a legal move does to the board.
use brs_bbs.Prelude.{
  ℕ, zero, suc, ◌+◌, ◌-◌, ◌≤◌, ◌<◌, ◌≡◌, refl, sym, ◌∙◌, ◌≢◌, ◌⊎◌, inl, inr, true, false, ◌||◌,
  Option, none, some, List, [], ◌∷◌, arith, ◌==◌, Bool-cases, length, length-set,
}
use brs_bbs.Reversi.{
  Board, black, white, spot, cell, put, invert, is_blank, dirs, walk, rounds, ends_in, can_put_in,
  can_put_loop, can_put, flip_loop, apply_in, apply_loop, step_normal, apply_step,
}
use brs_bbs.Reversi.Walk.{IsFramed, IsInside, IsDir, Stops, walk-Stops}
use brs_bbs.Reversi.Flip.{
  count, count-set, at-set_eq, at-set_ne, Turned, Moves, is_player, Turned-set, flip_loop-Turned,
  apply_loop-Turned,
}

-- A walk that ended ends there with more rounds too.
walk-more :
    (n : ℕ) (b : Board) (t : ℕ) (d : ℕ × ℕ) (x y : ℕ)
    → (walk n b t d x y ≢ none)
    → walk (suc n) b t d x y ≡ walk n b t d x y
unfolding walk
walk-more zero b t d x y h = absurd (h refl)
walk-more (suc n) b t d x y h =
    let x' = x + d.0 - 1 in
    let y' = y + d.1 - 1 in
    elim (Bool-cases (cell b x' y' == t)) [
      | inr stop ↦ rw stop refl
      | inl on ↦ rw on (walk-more n b t d x' y' (λ e. h (rw on e)))
    ]

walk-step :
    (n : ℕ) (b : Board) (t : ℕ) (d : ℕ × ℕ) (x y : ℕ)
    → cell b (x + d.0 - 1) (y + d.1 - 1) ≡ t
    → walk (suc n) b t d x y ≡ walk n b t d (x + d.0 - 1) (y + d.1 - 1)
unfolding walk
walk-step n b t d x y e = ground arith

Stops-ends : (b : Board) (t : ℕ) (o : Option (ℕ × ℕ)) → Stops b t o → o ≢ none
Stops-ends b t none h e = h
Stops-ends b t (some l) h e = Option-some_ne l e
  where
    Option-some_ne : (l : ℕ × ℕ) → some l ≢ none
    Option-some_ne l e = ground arith

abbrev pub AreDirs : List (ℕ × ℕ) → Type 0
AreDirs [] = Unit {0}
AreDirs (d ∷ ds) = IsDir d × AreDirs ds

module _ (own : ℕ) (player : (own ≡ black) ⊎ (own ≡ white)) where
  -- From where the first piece is the opponent's, both walks end at one place.
  same_end :
      {b : Board}
      → IsFramed b
      → (x y : ℕ) (d : ℕ × ℕ) → IsInside x y
      → IsDir d
      → cell b (x + d.0 - 1) (y + d.1 - 1) ≡ invert own
      → walk rounds b (invert own) d (x + d.0 - 1) (y + d.1 - 1) ≡ walk rounds b (invert own) d x y
  same_end {b = b} f x y d ins dir e =
      let x' = x + d.0 - 1 in
      let y' = y + d.1 - 1 in
      let pl = is_player own player in
      let ends =
        Stops-ends b (invert own) _ (walk-Stops f (invert own) d x y dir ins (omega (arith, pl))) in
      let first = walk-step 8 b (invert own) d x y e in
      walk-more 8 b (invert own) d x' y' (λ n. ends (first ∙ n)) ∙ sym first

  -- A direction with the opponent next to the place turns at least that piece.
  turns_first :
      (b : Board) (x y : ℕ) (d : ℕ × ℕ)
      → cell b (x + d.0 - 1) (y + d.1 - 1) ≡ invert own
      → ends_in b own (walk rounds b (invert own) d x y) ≡ true
      → count own b < count own (apply_in b own x y d)
  unfolding apply_in flip_loop
  turns_first b x y d e yes' =
      let x' = x + d.0 - 1 in
      let y' = y + d.1 - 1 in
      let at_first : (cell b x' y' == invert own) ≡ true = ground arith in
      let one = (Turned-set own player b (spot x' y') e).1 in
      let rest = (flip_loop-Turned own player 8 (put b x' y' own) d x' y').more in
      rw yes' (rw at_first (omega (arith, one, rest)))

  -- What a direction does where its first place is not the opponent's.
  no_turn :
      (b : Board) (x y : ℕ) (d : ℕ × ℕ)
      → (cell b (x + d.0 - 1) (y + d.1 - 1) == invert own) ≡ false
      → apply_in b own x y d ≡ b
  unfolding apply_in flip_loop
  no_turn b x y d ne = elim (Bool-cases (ends_in b own (walk rounds b (invert own) d x y))) [
    | inl t ↦ rw t (rw ne refl)
    | inr t ↦ rw t refl
  ]

  kept_or_more :
      (b : Board) (x y : ℕ) (d : ℕ × ℕ)
      → (apply_in b own x y d ≡ b) ⊎ (count own b < count own (apply_in b own x y d))
  unfolding apply_in
  kept_or_more b x y d = elim (Bool-cases (cell b (x + d.0 - 1) (y + d.1 - 1) == invert own)) [
    | inr ne ↦ inl (no_turn b x y d ne)
    | inl eq' ↦ elim (Bool-cases (ends_in b own (walk rounds b (invert own) d x y))) [
      | inl t ↦ inr (turns_first b x y d (ground arith) t)
      | inr t ↦ inl (rw t refl)
    ]
  ]

  -- The two functions agree on a direction that captures.
  can_put_in-more :
      {b : Board}
      → IsFramed b
      → (x y : ℕ) (d : ℕ × ℕ) → IsInside x y
      → IsDir d
      → can_put_in b own x y d ≡ true
      → count own b < count own (apply_in b own x y d)
  unfolding can_put_in
  can_put_in-more {b = b} f x y d ins dir h =
      let x' = x + d.0 - 1 in
      let y' = y + d.1 - 1 in
      elim (Bool-cases (is_blank (cell b x' y') || cell b x' y' == own)) [
        | inl own_or_blank ↦ absurd (ground arith)
        | inr opp ↦
            let e : cell b x' y' ≡ invert own =
              opponent (cell b x' y') (f.colors (spot x' y')) opp in
            let h' : ends_in b own (walk rounds b (cell b x' y') d x' y') ≡ true = rw opp at h in
            turns_first b x y d e (rw (e, same_end f x y d ins dir e) at h')
      ]
    where
      opponent : (c : ℕ) → c ≤ white → (is_blank c || c == own) ≡ false → c ≡ invert own
      opponent c small o = elim player [
        | inl p ↦ rw p (let o' = rw p at o in ground arith)
        | inr p ↦ rw p (let o' = rw p at o in ground arith)
      ]

  apply_loop-more :
      {b : Board}
      → IsFramed b
      → (x y : ℕ) (ds : List (ℕ × ℕ)) → IsInside x y
      → AreDirs ds
      → can_put_loop b own x y ds ≡ true
      → count own b < count own (apply_loop b own x y ds)
  unfolding can_put_loop apply_loop
  apply_loop-more f x y [] ins dirs h = absurd (ground arith)
  apply_loop-more {b = b} f x y (d ∷ ds) ins (dir, dirs') h =
      let rest = (apply_loop-Turned own player (apply_in b own x y d) x y ds).more in
      elim (Bool-cases (can_put_in b own x y d)) [
        | inl t ↦ omega (arith, rest, can_put_in-more f x y d ins dir t)
        | inr t ↦ elim (kept_or_more b x y d) [
          | inr more ↦ omega (arith, rest, more)
          | inl kept ↦ rw kept (apply_loop-more f x y ds ins dirs' (rw t at h))
        ]
      ]

  pub IsDirs : AreDirs dirs
  IsDirs = ground arith

  -- Pieces that are turned over leave the dummies and the colours as they should be.
  pub Turned-IsFramed : {b b' : Board} → IsFramed b → Turned own b b' → IsFramed b'
  Turned-IsFramed f t =
      let pl = is_player own player in
      record {
        size = t.size ∙ f.size;
        dummies =
            λ x y hx hy edge. ground (arith, t.cells (spot x y), f.dummies x y hx hy edge, pl);
        colors = λ p. ground (arith, t.cells p, f.colors p, player);
      }

  pub put-IsFramed : {b : Board} → IsFramed b → (x y : ℕ) → IsInside x y → IsFramed (put b x y own)
  put-IsFramed {b = b} f x y ins = record {
    size = length-set b (spot x y) own ∙ f.size;
    dummies = λ u v hu hv edge.
        let apart : (spot u v == spot x y) ≡ false = ground arith in
        omega (arith, at-set_ne b (spot x y) own (spot u v) apart, f.dummies u v hu hv edge);
    colors = λ p. elim (Bool-cases (p == spot x y)) [
      | inl e ↦
          let e' : p ≡ spot x y = ground arith in
          let here = at-set_eq b (spot x y) own (ground (arith, f.size)) in
          rw e' (ground (arith, here, player))
      | inr n ↦ omega (arith, at-set_ne b (spot x y) own p n, f.colors p)
    ];
  }

  -- On a board with blank dummies, a move that `can_put` allows puts the piece down and turns at
  -- least one of the opponent's over; every other place either stays or was the opponent's and is
  -- now the player's; there is one piece more on the board, and the dummies stay blank.
  pub apply_step-Moves :
      (b : Board) (x y : ℕ)
      → IsFramed b
      → IsInside x y
      → can_put b own x y ≡ true
      → let b' = apply_step b (record { type = step_normal; color = own; r = x; c = y }) in
        Moves own x y b b' × IsFramed b'
  unfolding can_put apply_step
  apply_step-Moves b x y f ins h = elim (Bool-cases (is_blank (cell b x y))) [
    | inr no' ↦ absurd (ground arith)
    | inl blank ↦
        let pl = is_player own player in
        let t = apply_loop-Turned own player b x y dirs in
        let more = apply_loop-more f x y dirs ins IsDirs (rw blank at h) in
        let m = apply_loop b own x y dirs in
        let p = spot x y in
        let inside : p < length m = omega (arith, t.size, f.size) in
        let blank' : cell m x y < 2 = ground (arith, t.cells p) in
        let own_one = count-set own m p own inside in
        let other_one = count-set (invert own) m p own inside in
        (
          (
            at-set_eq m p own inside,
            λ q n. rw (at-set_ne m p own q n) (t.cells q),
            ground (arith, own_one),
            ground (arith, own_one, other_one, t.total),
          ),
          put-IsFramed (Turned-IsFramed f t) x y ins,
        )
  ]
