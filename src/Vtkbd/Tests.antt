-- ===== src/Vtkbd/Tests.antt =====
-- Runs of the keyboard parser at concrete inputs.
use brs_bbs.Prelude.{ℕ, List, [], ◌∷◌, arith}
use brs_bbs.Vtkbd.{VtkbdCtx, normal}
use brs_bbs.Vtkbd.Progress.{next_key, next_key-within_five, Reads}

abbrev resting : VtkbdCtx
resting = record { state = normal; esc_arg = 0 }

-- `<Esc> [ 1 1 ~`
abbrev f1_bytes : List ℕ
f1_bytes = 27 ∷ b'[' ∷ b'1' ∷ b'1' ∷ b'~' ∷ []

next_key-within_five_example : Reads 5 f1_bytes (next_key resting f1_bytes)
next_key-within_five_example = next_key-within_five f1_bytes resting (ground arith) tt (omega arith)
