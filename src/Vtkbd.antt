-- ===== src/Vtkbd.antt =====
-- common/sys/vtkbd.c and include/vtkbd.h: the parser of terminal key sequences.
-- A byte is a number; `ctx->state` is only ever one of the enum's values, so it is a data type and
-- the `default` branch of the source, an assertion, has no counterpart.
pub mod Progress
pub mod Sequences
pub mod Repeats
mod Tests
use brs_bbs.Prelude.{
  ℕ, ◌+◌, ◌-◌, ◌/◌, Bool, true, false, ◌&&◌, ◌||◌, List, [], ◌∷◌, Option, none, some, ◌==◌, not,
  if◌then◌else◌, within, length,
}

abbrev pub key_esc : ℕ
key_esc = 27

abbrev pub key_enter : ℕ
key_enter = 13

abbrev pub key_bs : ℕ
key_bs = 0x08

abbrev pub key_up : ℕ
key_up = 0x0101

abbrev pub key_stab : ℕ
key_stab = 0x0109

abbrev pub key_home : ℕ
key_home = 0x0201

abbrev pub key_ins : ℕ
key_ins = 0x0202

abbrev pub key_del : ℕ
key_del = 0x0203

abbrev pub key_end : ℕ
key_end = 0x0204

abbrev pub key_pgup : ℕ
key_pgup = 0x0205

abbrev pub key_pgdn : ℕ
key_pgdn = 0x0206

abbrev pub key_f1 : ℕ
key_f1 = 0x0301

abbrev pub key_f6 : ℕ
key_f6 = 0x0306

abbrev pub key_f9 : ℕ
key_f9 = 0x0309

abbrev pub key_f11 : ℕ
key_f11 = 0x030b

abbrev pub key_incomplete : ℕ
key_incomplete = 0x0420

abbrev pub key_unknown : ℕ
key_unknown = 0x0f20

abbrev pub vkraw_bs : ℕ
vkraw_bs = 0x08

abbrev pub vkraw_erase : ℕ
vkraw_erase = 0x7f

-- `Ctrl('D')`
abbrev pub ctrl_d : ℕ
ctrl_d = 0x04

-- `VKSTATES`
pub data VkState : Type 0 where
  normal esc esc_app esc_quote one two tlide : VkState

pub record VtkbdCtx : Type 0 where
  pub state : VkState
  pub esc_arg : ℕ

-- The key that a call returns, and the context that it leaves.
abbrev pub Step : Type 0
Step = ℕ × VtkbdCtx

-- `ctx->state = VKSTATE_NORMAL; return key;`
abbrev pub complete : ℕ → VtkbdCtx → Step
complete key ctx = (key, record ctx { state = normal })

-- `ctx->state = s; return KEY_INCOMPLETE;`
abbrev pub wait : VkState → VtkbdCtx → Step
wait s ctx = (key_incomplete, record ctx { state = s })

-- `ctx->state = VKSTATE_TLIDE; ctx->esc_arg = key; return KEY_INCOMPLETE;`
abbrev pub wait_tlide : ℕ → VtkbdCtx → Step
wait_tlide key ctx = (key_incomplete, record ctx { state = tlide; esc_arg = key })

pub process_normal : ℕ → VtkbdCtx → Step
process_normal c ctx =
    if c == key_esc
    then wait esc ctx
    else if c == vkraw_bs || c == vkraw_erase
    then (key_bs, ctx)
    else (c, ctx)

pub process_esc : ℕ → VtkbdCtx → Step
process_esc c ctx =
    if c == b'['
    then wait esc_quote ctx
    else if c == b'O'
    then wait esc_app ctx
    else (key_esc, record ctx { esc_arg = c; state = normal })

-- `numx[i]` of `"*+,-./"`; the assertion of the source keeps `i` below 6.
pub numx : ℕ → ℕ
numx i = b'*' + i

-- The cursor and SCO keys, which both `<Esc> O` and `<Esc> [` share.
pub cursor_key : ℕ → Option ℕ
cursor_key c =
    if within b'A' b'D' c
    then some (key_up + (c - b'A'))
    else if c == b'H'
    then some key_home
    else if c == b'F'
    then some key_end
    else if c == b'G'
    then some key_pgdn
    else if c == b'I'
    then some key_pgup
    else if c == b'L'
    then some key_ins
    else none

-- The rest of `<Esc> O`: PF keys, and the number pad. `w` is taken before the digits.
pub app_key : ℕ → Option ℕ
unfolding numx
app_key c =
    if within b'P' b'S' c
    then some (key_f1 + (c - b'P'))
    else if c == b'w'
    then some key_del
    else if within b'p' b'v' c || within b'x' b'y' c
    then some (b'0' + (c - b'p'))
    else if c == b'M'
    then some key_enter
    else if c == b'X'
    then some b'='
    else if within b'j' b'o' c
    then some (numx (c - b'j'))
    else none

pub process_app : ℕ → VtkbdCtx → Step
unfolding cursor_key app_key
process_app c ctx = elim (cursor_key c) [
  | some key ↦ complete key ctx
  | none ↦ elim (app_key c) [ some key ↦ complete key ctx | none ↦ complete key_unknown ctx ]
]

-- The rest of `<Esc> [`.
pub quote_other : ℕ → VtkbdCtx → Step
quote_other c ctx =
    if within b'3' b'6' c
    then wait_tlide (key_del + (c - b'3')) ctx
    else if c == b'7'
    then wait_tlide key_home ctx
    else if c == b'8'
    then wait_tlide key_end ctx
    else if c == b'Z'
    then complete key_stab ctx
    else if c == b'1'
    then wait one ctx
    else if c == b'2'
    then wait two ctx
    else complete key_unknown ctx

pub process_quote : ℕ → VtkbdCtx → Step
unfolding cursor_key quote_other
process_quote c ctx = elim (cursor_key c) [ some key ↦ complete key ctx | none ↦ quote_other c ctx ]

pub process_one : ℕ → VtkbdCtx → Step
process_one c ctx =
    if c == b'~'
    then complete key_home ctx
    else if within b'1' b'5' c
    then wait_tlide (key_f1 + c - b'1') ctx
    else if within b'7' b'9' c
    then wait_tlide (key_f6 + c - b'7') ctx
    else complete key_unknown ctx

pub process_two : ℕ → VtkbdCtx → Step
process_two c ctx =
    if c == b'~'
    then complete key_ins ctx
    else if within b'0' b'1' c
    then wait_tlide (key_f9 + c - b'0') ctx
    else if within b'3' b'4' c
    then wait_tlide (key_f11 + c - b'3') ctx
    else complete key_unknown ctx

pub process_tlide : ℕ → VtkbdCtx → Step
process_tlide c ctx = if c == b'~' then complete ctx.esc_arg ctx else complete key_unknown ctx

pub process_in : VkState → ℕ → VtkbdCtx → Step
unfolding process_normal process_esc process_app process_quote process_one process_two process_tlide
process_in normal c ctx = process_normal c ctx
process_in esc c ctx = process_esc c ctx
process_in esc_app c ctx = process_app c ctx
process_in esc_quote c ctx = process_quote c ctx
process_in one c ctx = process_one c ctx
process_in two c ctx = process_two c ctx
process_in tlide c ctx = process_tlide c ctx

-- `vtkbd_process`
pub process : ℕ → VtkbdCtx → Step
unfolding process_in
process c ctx = process_in ctx.state c ctx

-- `vtkbd_ignore_dbcs_evil_repeats`; the list is `buf[0..len)`.
pub ignore_dbcs_evil_repeats : List ℕ → ℕ
ignore_dbcs_evil_repeats (a ∷ b ∷ []) =
    if not (a == b)
    then 2
    else if a == vkraw_bs || (a == vkraw_erase || a == ctrl_d)
    then 2 / 2
    else 2
ignore_dbcs_evil_repeats (b0 ∷ b1 ∷ b2 ∷ b3 ∷ b4 ∷ b5 ∷ []) =
    if not (b2 == b'C') && not (b2 == b'D')
    then 6
    else if b0 == key_esc && ((b1 == b'[' || b1 == b'O') && (b0 == b3 && (b1 == b4 && b2 == b5)))
    then 6 / 2
    else 6
ignore_dbcs_evil_repeats (b0 ∷ b1 ∷ b2 ∷ b3 ∷ b4 ∷ b5 ∷ b6 ∷ b7 ∷ []) =
    if not (b0 == key_esc) || (not (b2 == b'3') || (not (b1 == b'[') || not (b3 == b'~')))
    then 8
    else if b4 == b0 && (b5 == b1 && (b6 == b2 && b7 == b3))
    then 8 / 2
    else 8
ignore_dbcs_evil_repeats buf = length buf
