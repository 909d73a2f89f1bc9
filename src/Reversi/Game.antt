-- ===== src/Reversi/Game.antt =====
-- A game of reversi as the moves that `reversi_select` accepts, with the hints of
-- `reversi_prepare_play` in between.
use brs_bbs.Prelude.{
  ℕ, zero, suc, ◌+◌, ◌/◌, ◌%◌, ◌≤◌, ◌<◌, ◌≡◌, refl, ap, ap₂, ◌∙◌, ◌⊎◌, inl, inr, true, Option, none,
  some, List, [], ◌∷◌, arith, if◌then◌else◌, Bool-cases, length, replicate,
}
use brs_bbs.Prelude.Bytes.{at}
use brs_bbs.Reversi.{
  Board, no_chess, black, white, spot, Step, step_normal, can_put, apply_step, start_board,
  init_board, turn_to_color, select, prepare_play,
}
use brs_bbs.Reversi.Walk.{IsFramed, IsInside, is_edge}
use brs_bbs.Reversi.Flip.{count}
use brs_bbs.Reversi.Move.{apply_step-Moves, put-IsFramed}
use brs_bbs.Reversi.Hint.{Similar}
use brs_bbs.Reversi.Marks.{caculate_hint-marks}

abbrev pub pieces : Board → ℕ
pieces b = count black b + count white b

-- `Play n b`: the board `b` is reached by `n` moves.
pub data Play : ℕ → Board → Type 0 where
  opening : Play 0 init_board
  prepared :
      (n : ℕ) (b : Board) (turn : ℕ) → turn ≤ 1 → Play n b → Play n (prepare_play b turn).board
  moved :
      (n : ℕ) (b b' : Board) (step : Step) (turn r c : ℕ)
      → turn ≤ 1
      → r < 8
      → c < 8
      → select b turn r c ≡ some (b', step)
      → Play n b
      → Play (suc n) b'

at-replicate : (n p : ℕ) → at (replicate n 0) p ≡ 0
at-replicate zero p = refl
at-replicate (suc n) zero = refl
at-replicate (suc n) (suc p) = at-replicate n p

empty-IsFramed : IsFramed (replicate 100 no_chess)
empty-IsFramed = record {
  size = refl;
  dummies = λ x y hx hy e. omega (arith, at-replicate 100 (spot x y));
  colors = λ p. omega (arith, at-replicate 100 p);
}

pub start_board-IsFramed : IsFramed start_board
unfolding start_board
start_board-IsFramed =
    let w1 = put-IsFramed white (inr refl) empty-IsFramed 5 5 (omega arith) in
    let w2 = put-IsFramed white (inr refl) w1 4 4 (omega arith) in
    let b1 = put-IsFramed black (inl refl) w2 5 4 (omega arith) in
    put-IsFramed black (inl refl) b1 4 5 (omega arith)

Similar-IsFramed : {b b' : Board} → IsFramed b → Similar b b' → IsFramed b'
Similar-IsFramed f s = record {
  size = s.size ∙ f.size;
  dummies = λ x y hx hy e. ground (arith, s.cells (spot x y), f.dummies x y hx hy e);
  colors = λ p. ground (arith, s.cells p, f.colors p);
}

count-pointwise :
    (c : ℕ) (b b' : Board)
    → black ≤ c
    → length b' ≡ length b
    → ((p : ℕ) → (at b' p ≡ at b p) ⊎ ((at b p < black) × (at b' p < black)))
    → count c b' ≡ count c b
unfolding count
count-pointwise c [] [] h l e = refl
count-pointwise c [] (y ∷ ys) h l e = absurd (omega arith)
count-pointwise c (x ∷ xs) [] h l e = absurd (omega arith)
count-pointwise c (x ∷ xs) (y ∷ ys) h l e =
    ground (arith, e 0, count-pointwise c xs ys h (omega arith) (λ p. e (suc p)))

pub pieces-Similar : {b b' : Board} → Similar b b' → pieces b' ≡ pieces b
pieces-Similar {b = b} {b' = b'} s =
    ap₂ ◌+◌ (count-pointwise black b b' (omega arith) s.size s.cells)
      (count-pointwise white b b' (omega arith) s.size s.cells)

-- The places among the `n` from `p` on.
inside_count : ℕ → ℕ → ℕ
inside_count p zero = 0
inside_count p (suc n) = (if is_edge (p / 10) (p % 10) then 0 else 1) + inside_count (p + 1) n

count-inside :
    (p : ℕ) (xs : List ℕ)
    → ((i : ℕ) → i < length xs → is_edge ((p + i) / 10) ((p + i) % 10) ≡ true → at xs i < black)
    → count black xs + count white xs ≤ inside_count p (length xs)
unfolding count inside_count
count-inside p [] h = omega arith
count-inside p (x ∷ xs) h =
    let rest = count-inside (p + 1) xs (λ i l e. h (suc i) (omega arith) (rw (shift i) at e)) in
    elim (Bool-cases (is_edge (p / 10) (p % 10))) [
      | inr n ↦ rw n (ground (arith, rest))
      | inl e ↦ rw e (ground (arith, rest, h 0 (omega arith) (rw (← first) at e)))
    ]
  where
    shift : (i : ℕ) → p + 1 + i ≡ p + suc i
    shift i = omega arith

    first : p + 0 ≡ p
    first = omega arith

pieces-le : {b : Board} → IsFramed b → pieces b ≤ 64
unfolding inside_count
pieces-le {b = b} f =
    let h = count-inside 0 b (λ i l e.
      let here : spot ((0 + i) / 10) ((0 + i) % 10) ≡ i = omega arith in
      rw here at
        (f.dummies ((0 + i) / 10) ((0 + i) % 10) (omega (arith, f.size)) (omega arith) e)) in
    rw f.size at h

color-player : (turn : ℕ) → turn ≤ 1 → (turn_to_color turn ≡ black) ⊎ (turn_to_color turn ≡ white)
color-player turn h = ground arith

-- What a move adds, in either colour.
pieces-Moves :
    (own : ℕ) (b : Board) (x y : ℕ)
    → (own ≡ black) ⊎ (own ≡ white)
    → IsFramed b
    → IsInside x y
    → can_put b own x y ≡ true
    → let b' = apply_step b (record { type = step_normal; color = own; r = x; c = y }) in
      IsFramed b' × (pieces b' ≡ pieces b + 1)
pieces-Moves own b x y player f ins h =
    let ((_, _, _, total), f') = apply_step-Moves own player b x y f ins h in
    (
      f',
      elim player [
        | inl e ↦ let t = rw e at total in rw e (omega (arith, t))
        | inr e ↦ let t = rw e at total in rw e (omega (arith, t))
      ],
    )

board_of : Option (Board × Step) → Board → Board
board_of none d = d
board_of (some (b, _)) d = b

select-result :
    (b b' : Board) (step : Step) (turn r c : ℕ)
    → select b turn r c ≡ some (b', step)
    → (can_put b (turn_to_color turn) (r + 1) (c + 1) ≡ true)
      × (apply_step b
            (record { type = step_normal; color = turn_to_color turn; r = r + 1; c = c + 1 })
          ≡ b')
unfolding select board_of
select-result b b' step turn r c h =
    elim (Bool-cases (can_put b (turn_to_color turn) (r + 1) (c + 1))) [
      | inl t ↦ (t, ap (λ o. board_of o b) (rw t at h))
      | inr t ↦ absurd (ground arith)
    ]

start_board-Similar : Similar start_board init_board
unfolding init_board
start_board-Similar =
    let (_, _, s) = caculate_hint-marks start_board black start_board-IsFramed (inl refl) in s

start-pieces : pieces start_board ≡ 4
unfolding start_board count
start-pieces = refl

-- After `n` moves `4 + n` pieces are on the board, the dummies are blank, and a game has at most 60
-- moves, whatever the players choose and however they pass.
pub Play-pieces : (n : ℕ) (b : Board) → Play n b → IsFramed b × (pieces b ≡ 4 + n) × (n ≤ 60)
unfolding prepare_play
Play-pieces n b opening = (
  Similar-IsFramed start_board-IsFramed start_board-Similar,
  pieces-Similar start_board-Similar ∙ start-pieces,
  omega arith,
)
Play-pieces n b' (prepared m b turn h p) =
    let (f, total, le) = Play-pieces m b p in
    let (_, _, s) = caculate_hint-marks b (turn_to_color turn) f (color-player turn h) in
    (Similar-IsFramed f s, pieces-Similar s ∙ total, le)
Play-pieces n b' (moved m b _ step turn r c h hr hc e p) =
    let (f, total, le) = Play-pieces m b p in
    let (legal, result) = select-result b b' step turn r c e in
    let (f', one) =
      pieces-Moves (turn_to_color turn) b (r + 1) (c + 1) (color-player turn h) f (omega arith)
        legal in
    let f'' : IsFramed b' = rw result at f' in
    let total' : pieces b' ≡ 4 + n = (rw result at one) ∙ omega (arith, total) in
    (f'', total', omega (arith, total', pieces-le f''))
