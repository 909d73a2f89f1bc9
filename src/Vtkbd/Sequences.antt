-- ===== src/Vtkbd/Sequences.antt =====
-- The sequences that the terminals send for each key, as the comment at the top of vtkbd.c lists
-- them, and that the parser reads each one back.
use brs_bbs.Prelude.{ℕ, ◌≡◌, List, [], ◌∷◌, ◌++◌, Option, some, refl}
use brs_bbs.Vtkbd.{normal, VtkbdCtx, process}
use brs_bbs.Vtkbd.Progress.{next_key}

-- The cursor, editing and function keys of the list.
pub data Key : Type 0 where
  up down right left home ins del end_ pgup pgdn stab : Key
  f1 f2 f3 f4 f5 f6 f7 f8 f9 f10 f11 f12 : Key

-- The key codes of include/vtkbd.h.
abbrev pub code_of : Key → ℕ
code_of up = 0x0101
code_of down = 0x0102
code_of right = 0x0103
code_of left = 0x0104
code_of home = 0x0201
code_of ins = 0x0202
code_of del = 0x0203
code_of end_ = 0x0204
code_of pgup = 0x0205
code_of pgdn = 0x0206
code_of stab = 0x0109
code_of f1 = 0x0301
code_of f2 = 0x0302
code_of f3 = 0x0303
code_of f4 = 0x0304
code_of f5 = 0x0305
code_of f6 = 0x0306
code_of f7 = 0x0307
code_of f8 = 0x0308
code_of f9 = 0x0309
code_of f10 = 0x030a
code_of f11 = 0x030b
code_of f12 = 0x030c

-- `<Esc> [ x`, `<Esc> O x`, `<Esc> [ x ~`, `<Esc> [ x y ~`
abbrev quote1 : ℕ → List ℕ
quote1 x = 27 ∷ b'[' ∷ x ∷ []

abbrev app1 : ℕ → List ℕ
app1 x = 27 ∷ b'O' ∷ x ∷ []

abbrev tilde1 : ℕ → List ℕ
tilde1 x = 27 ∷ b'[' ∷ x ∷ b'~' ∷ []

abbrev tilde2 : ℕ → ℕ → List ℕ
tilde2 x y = 27 ∷ b'[' ∷ x ∷ y ∷ b'~' ∷ []

-- The main form of each key: vt220 and xterm.
abbrev pub sequence : Key → List ℕ
sequence up = quote1 b'A'
sequence down = quote1 b'B'
sequence right = quote1 b'C'
sequence left = quote1 b'D'
sequence home = tilde1 b'1'
sequence ins = tilde1 b'2'
sequence del = tilde1 b'3'
sequence end_ = tilde1 b'4'
sequence pgup = tilde1 b'5'
sequence pgdn = tilde1 b'6'
sequence stab = quote1 b'Z'
sequence f1 = tilde2 b'1' b'1'
sequence f2 = tilde2 b'1' b'2'
sequence f3 = tilde2 b'1' b'3'
sequence f4 = tilde2 b'1' b'4'
sequence f5 = tilde2 b'1' b'5'
sequence f6 = tilde2 b'1' b'7'
sequence f7 = tilde2 b'1' b'8'
sequence f8 = tilde2 b'1' b'9'
sequence f9 = tilde2 b'2' b'0'
sequence f10 = tilde2 b'2' b'1'
sequence f11 = tilde2 b'2' b'3'
sequence f12 = tilde2 b'2' b'4'

-- The other forms: application mode, SCO, rxvt, and PF keys.
abbrev pub sequence_alt : Key → List ℕ
sequence_alt up = app1 b'A'
sequence_alt down = app1 b'B'
sequence_alt right = app1 b'C'
sequence_alt left = app1 b'D'
sequence_alt home = tilde1 b'7'
sequence_alt end_ = tilde1 b'8'
sequence_alt ins = quote1 b'L'
sequence_alt pgup = quote1 b'I'
sequence_alt pgdn = quote1 b'G'
sequence_alt f1 = app1 b'P'
sequence_alt f2 = app1 b'Q'
sequence_alt f3 = app1 b'R'
sequence_alt f4 = app1 b'S'
sequence_alt k = sequence k

-- What `esc_arg` is left at is not said; the parser is at rest.
abbrev pub ReadsAs : ℕ → List ℕ → Option (ℕ × VtkbdCtx × List ℕ) → Type 0
ReadsAs key rest r = (arg : ℕ) × (r ≡ some (key, record { state = normal; esc_arg = arg }, rest))

-- Both forms of each documented key are read back as that key's code, whatever follows them and
-- whatever `esc_arg` an earlier sequence left.
pub next_key-sequence :
    (k : Key) (arg : ℕ) (rest : List ℕ)
    → let ctx : VtkbdCtx = record { state = normal; esc_arg = arg } in
      ReadsAs (code_of k) rest (next_key ctx (sequence k ++ rest))
      × ReadsAs (code_of k) rest (next_key ctx (sequence_alt k ++ rest))
unfolding next_key process
next_key-sequence up arg rest = ((arg, refl), (arg, refl))
next_key-sequence down arg rest = ((arg, refl), (arg, refl))
next_key-sequence k arg rest = ((_, refl), (_, refl))
