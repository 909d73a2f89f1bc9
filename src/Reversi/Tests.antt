-- ===== src/Reversi/Tests.antt =====
-- Runs of the rules of reversi, and each theorem at an input.
use brs_bbs.Prelude.{ℕ, ◌≤◌, ◌≡◌, refl, inl, true, none, arith}
use brs_bbs.Reversi.{
  black, cell, places, Step, step_normal, walk, can_put_in, can_put_loop, can_put, flip_loop,
  apply_in, apply_loop, apply_step, hint_at, hint_loop, caculate_hint, start_board, init_board,
  select, number, prepare_play, clear_hints, post_game, game_win, Board, dirs, put,
}
use brs_bbs.Reversi.Walk.{IsFramed, IsInside}
use brs_bbs.Reversi.Flip.{Moves, count}
use brs_bbs.Reversi.Lines.{Lines, apply_step-Lines}
use brs_bbs.Reversi.Hint.{Similar}
use brs_bbs.Reversi.Marks.{marked, legal_count, caculate_hint-marks}
use brs_bbs.Reversi.Game.{Play, opening, moved, pieces, start_board-IsFramed, Play-pieces}

program : Unit {0}
unfolding walk can_put_in can_put_loop can_put flip_loop apply_in apply_loop apply_step hint_at
    hint_loop caculate_hint start_board init_board select number prepare_play clear_hints post_game
    count
program = tt

-- Black opens next to the white pieces, in four places.
opening_hints : (caculate_hint start_board black).1 ≡ 4
unfolding program
opening_hints = refl

first_move : can_put start_board black 3 4 ≡ true
unfolding program
first_move = refl

wrong_move : select init_board 1 3 4 ≡ none
unfolding program
wrong_move = refl

abbrev first_step : Step
first_step = record { type = step_normal; color = black; r = 3; c = 4 }

counts_after :
    (pieces (apply_step init_board first_step) ≡ 5)
    × ((post_game (apply_step init_board first_step) 1).1 ≡ game_win)
unfolding program
counts_after = (refl, refl)

apply_step-Lines_example :
    ((turned : Board) × Lines black 3 4 dirs start_board turned
      × (apply_step start_board first_step ≡ put turned 3 4 black))
    × Moves black 3 4 start_board (apply_step start_board first_step)
    × IsFramed (apply_step start_board first_step)
apply_step-Lines_example =
    apply_step-Lines black (inl refl) start_board 3 4 start_board-IsFramed (omega arith) first_move

caculate_hint-marks_example :
    ((x y : ℕ)
      → IsInside x y
      → cell (caculate_hint start_board black).0 x y ≡ marked start_board black x y)
    × ((caculate_hint start_board black).1 ≡ legal_count start_board black places)
    × Similar start_board (caculate_hint start_board black).0
caculate_hint-marks_example = caculate_hint-marks start_board black start_board-IsFramed (inl refl)

one_move : Play 1 (apply_step init_board first_step)
unfolding program
one_move =
    moved 0 init_board (apply_step init_board first_step) first_step 1 2 3 (omega arith)
      (omega arith) (omega arith) refl opening

Play-pieces_example :
    IsFramed (apply_step init_board first_step)
    × (pieces (apply_step init_board first_step) ≡ 5)
    × (1 ≤ 60)
Play-pieces_example = Play-pieces 1 (apply_step init_board first_step) one_move
