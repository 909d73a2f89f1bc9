-- ===== src/Reversi.antt =====
-- The rules of reversi (mbbsd/ch_reversi.c): legal places, hints, and turning pieces.
--
-- A board is its 10 rows of 10 characters, one after the other; the outer ones are dummies. The
-- offsets of DIRX and DIRY are one more here than there, and a step takes the one off again.
pub mod Walk
pub mod Flip
pub mod Move
pub mod Lines
pub mod Game
pub mod Hint
pub mod Marks
mod Tests
use brs_bbs.Prelude.Bytes.{at}
use brs_bbs.Prelude.{
  ℕ, zero, suc, ◌+◌, ◌-◌, ◌*◌, ◌/◌, ◌%◌, ◌^◌, ◌≤◌, ◌<◌, min, ◌≡◌, refl, sym, ap, ap₂, ◌∙◌, subst,
  ◌≢◌, ◌↔◌, ◌⊎◌, inl, inr, Bool, true, false, not, ◌&&◌, ◌||◌, Option, none, some, List, [], ◌∷◌,
  ◌++◌, append-nil, append_assoc, map, flatten, arith, ltb, leb, ◌==◌, if◌then◌else◌, ltb→lt,
  lt→ltb, leb→le, ==_iff, tests, Bool-cases, Option-cases, List-cases, take-whole, within, length,
  get_elem?, set, length-append, length-set, take, drop, replicate, length-take, length-drop,
  take-append-drop, length-replicate,
}

abbrev pub no_chess : ℕ
no_chess = 0

abbrev pub hint : ℕ
hint = 1

abbrev pub black : ℕ
black = 2

abbrev pub white : ℕ
white = 3

abbrev pub Board : Type 0
Board = List ℕ

abbrev pub spot : ℕ → ℕ → ℕ
spot x y = 10 * x + y

abbrev pub cell : Board → ℕ → ℕ → ℕ
cell b x y = at b (spot x y)

abbrev pub put : Board → ℕ → ℕ → ℕ → Board
put b x y color = set b (spot x y) color

abbrev pub invert : ℕ → ℕ
invert color = if color == white then black else white

abbrev pub is_blank : ℕ → Bool
is_blank color = ltb color black

abbrev pub is_chess : ℕ → Bool
is_chess color = leb black color

-- `DIRX[i] + 1` and `DIRY[i] + 1`, for each i.
abbrev pub dirs : List (ℕ × ℕ)
dirs = (0, 0) ∷ (0, 1) ∷ (0, 2) ∷ (1, 2) ∷ (2, 2) ∷ (2, 1) ∷ (2, 0) ∷ (1, 0) ∷ []

-- `while (board[x += DIRX[i]][y += DIRY[i]] == temp);`, and where it ends.
unfoldable pub walk : ℕ → Board → ℕ → ℕ × ℕ → ℕ → ℕ → Option (ℕ × ℕ)
walk zero b temp d x y = none
walk (suc n) b temp d x y =
    let next = walk n b temp d (x + d.0 - 1) (y + d.1 - 1) in
    if cell b (x + d.0 - 1) (y + d.1 - 1) == temp then next else some (x + d.0 - 1, y + d.1 - 1)

-- Enough to leave the board: see Reversi.Walk.
abbrev pub rounds : ℕ
rounds = 9

abbrev pub ends_in : Board → ℕ → Option (ℕ × ℕ) → Bool
ends_in b who none = false
ends_in b who (some (x, y)) = cell b x y == who

unfoldable pub can_put_in : Board → ℕ → ℕ → ℕ → ℕ × ℕ → Bool
can_put_in b who x y d =
    let cx = x + d.0 - 1 in
    let cy = y + d.1 - 1 in
    let temp = cell b cx cy in
    if is_blank temp || temp == who then false else ends_in b who (walk rounds b temp d cx cy)

unfoldable pub can_put_loop : Board → ℕ → ℕ → ℕ → List (ℕ × ℕ) → Bool
can_put_loop b who x y [] = false
can_put_loop b who x y (d ∷ ds) =
    let rest = can_put_loop b who x y ds in if can_put_in b who x y d then true else rest

unfoldable pub can_put : Board → ℕ → ℕ → ℕ → Bool
can_put b who x y = if is_blank (cell b x y) then can_put_loop b who x y dirs else false

-- `reversi_apply_step`: the second loop of a direction, a direction, all of them.
unfoldable pub flip_loop : ℕ → Board → ℕ → ℕ → ℕ × ℕ → ℕ → ℕ → Board
flip_loop zero b own opposite d x y = b
flip_loop (suc n) b own opposite d x y =
    let x' = x + d.0 - 1 in
    let y' = y + d.1 - 1 in
    let rest = flip_loop n (put b x' y' own) own opposite d x' y' in
    if cell b x' y' == opposite then rest else b

unfoldable pub apply_in : Board → ℕ → ℕ → ℕ → ℕ × ℕ → Board
apply_in b own x y d =
    if ends_in b own (walk rounds b (invert own) d x y)
    then flip_loop rounds b own (invert own) d x y
    else b

unfoldable pub apply_loop : Board → ℕ → ℕ → ℕ → List (ℕ × ℕ) → Board
apply_loop b own x y [] = b
apply_loop b own x y (d ∷ ds) = apply_loop (apply_in b own x y d) own x y ds

pub data StepType : Type 0 where
  step_normal : StepType
  step_special : StepType

pub record Step : Type 0 where
  pub type : StepType
  pub color : ℕ
  pub r : ℕ
  pub c : ℕ

unfoldable pub apply_step : Board → Step → Board
apply_step b step = elim step.type [
  | step_special ↦ b
  | step_normal ↦ put (apply_loop b step.color step.r step.c dirs) step.r step.c step.color
]

-- The places in the order of the two loops over x and y.
abbrev pub row : ℕ → ℕ → List (ℕ × ℕ)
row zero x = []
row (suc n) x = (x, 8 - n) ∷ row n x

abbrev pub rows : ℕ → List (ℕ × ℕ)
rows zero = []
rows (suc n) = row 8 (8 - n) ++ rows n

abbrev pub places : List (ℕ × ℕ)
places = rows 8

-- `caculate_hint`, with `count`.
unfoldable pub hint_at : Board → ℕ → ℕ × ℕ → Board × ℕ
hint_at b who (x, y) =
    let b' = if cell b x y == hint then put b x y no_chess else b in
    if can_put b' who x y then (put b' x y hint, 1) else (b', 0)

unfoldable pub hint_loop : Board → ℕ → List (ℕ × ℕ) → Board × ℕ
hint_loop b who [] = (b, 0)
hint_loop b who (p ∷ ps) =
    let r = hint_at b who p in let rest = hint_loop r.0 who ps in (rest.0, r.1 + rest.1)

unfoldable pub caculate_hint : Board → ℕ → Board × ℕ
caculate_hint b who = hint_loop b who places

-- `memset` and the four pieces, in front of the hints.
unfoldable pub start_board : Board
start_board = put (put (put (put (replicate 100 no_chess) 5 5 white) 4 4 white) 5 4 black) 4 5 black

unfoldable pub init_board : Board
init_board = (caculate_hint start_board black).0

abbrev pub turn_to_color : ℕ → ℕ
turn_to_color turn = white - turn

-- `reversi_select` on the board: the step that is sent, where there is one.
unfoldable pub select : Board → ℕ → ℕ → ℕ → Option (Board × Step)
select b turn r c =
    let step : Step = record {
      type = step_normal;
      color = turn_to_color turn;
      r = r + 1;
      c = c + 1;
    } in
    if can_put b (turn_to_color turn) (r + 1) (c + 1) then some (apply_step b step, step) else none

-- `number[COLOR_TO_TURN(color)]`, as both loops count it.
unfoldable pub number : Board → ℕ → List (ℕ × ℕ) → ℕ
number b turn [] = 0
number b turn ((x, y) ∷ ps) =
    (if is_chess (cell b x y) && (white - cell b x y == turn) then 1 else 0) + number b turn ps

-- `reversi_prepare_play` on the board: the counts, the hints, and whether the turn is passed on.
pub record Prepared : Type 0 where
  pub board : Board
  pub number0 : ℕ
  pub number1 : ℕ
  pub passes : Bool

unfoldable pub prepare_play : Board → ℕ → Prepared
prepare_play b turn =
    let hinted = caculate_hint b (turn_to_color turn) in
    record {
      board = hinted.0;
      number0 = number b 0 places;
      number1 = number b 1 places;
      passes = hinted.1 == 0;
    }

unfoldable pub clear_hints : Board → List (ℕ × ℕ) → Board
clear_hints b [] = b
clear_hints b ((x, y) ∷ ps) = clear_hints (if cell b x y == hint then put b x y no_chess else b) ps

pub data GameResult : Type 0 where
  game_tie : GameResult
  game_lost : GameResult
  game_win : GameResult

-- `reversi_post_game`; a place that is no hint any more was never counted.
unfoldable pub post_game : Board → ℕ → Board × GameResult
post_game b myturn =
    let own = if myturn == 0 then number b 0 places else number b 1 places in
    let other = if myturn == 0 then number b 1 places else number b 0 places in
    (
      clear_hints b places,
      (if own == other then game_tie else if ltb own other then game_lost else game_win),
    )
