-- ===== src/Text/Dbcs.antt =====
-- Double-byte characters in common/sys/string.c: a byte of 128 or more leads a character of two.
pub mod Whole
pub mod Big5
use brs_bbs.Prelude.{
  ℕ, zero, suc, ◌+◌, ◌-◌, ◌*◌, ◌/◌, ◌%◌, ◌^◌, ◌≤◌, ◌<◌, min, ◌≡◌, refl, sym, ap, ap₂, ◌∙◌, subst,
  ◌≢◌, ◌↔◌, ◌⊎◌, inl, inr, Bool, true, false, not, ◌&&◌, ◌||◌, Option, none, some, List, [], ◌∷◌,
  ◌++◌, append-nil, append_assoc, map, flatten, arith, ltb, leb, ◌==◌, if◌then◌else◌, ltb→lt,
  lt→ltb, leb→le, ==_iff, tests, Bool-cases, Option-cases, List-cases, within, length, get_elem?,
  set, length-append, length-set, take, drop, replicate, length-take, length-drop, take-append-drop,
  length-replicate,
}

-- `enum _DBCS_STATUS`
pub data DbcsStatus : Type 0 where
  ascii leading trailing : DbcsStatus

-- `DBCS_NextStatus`
pub next_status : ℕ → DbcsStatus → DbcsStatus
next_status c leading = trailing
next_status c _ = if leb 0x80 c then leading else ascii

-- The loop of `DBCS_Status`, for a number of rounds. Behind the string it reads the NUL, and stops.
pub status_loop : ℕ → List ℕ → DbcsStatus → DbcsStatus
status_loop zero s sts = sts
status_loop (suc n) [] sts = next_status 0 sts
status_loop (suc n) (c ∷ cs) sts = status_loop n cs (next_status c sts)

-- `DBCS_Status`, for a `pos` that is not negative
pub dbcs_status : List ℕ → ℕ → DbcsStatus
dbcs_status dbcstr pos = status_loop (pos + 1) dbcstr ascii

-- `DBCS_safe_trim`
pub safe_trim : List ℕ → List ℕ
safe_trim dbcstr =
    let len = length dbcstr in
    if ltb len 1
    then dbcstr
    else elim (dbcs_status dbcstr (len - 1)) [ leading ↦ take (len - 1) dbcstr | _ ↦ dbcstr ]

-- `(0x40<=c && c<=0x7e) || (0xa1<=c && c<=0xfe)`
pub is_big5_trail : ℕ → Bool
is_big5_trail c = within 0x40 0x7e c || within 0xa1 0xfe c

-- The body of the loop of `strip_nonebig5` where a byte `d` follows `c`: what is stored, given what
-- the loop stores from `d` on, from behind `d` on, and from one byte further on.
pub big5_step : ℕ → ℕ → List ℕ → List ℕ → List ℕ → List ℕ
big5_step c d next behind further =
    if within 32 127 c
    then c ∷ next
    else if c == 255
    then (if within 251 254 d then further else next)
    else if leb 0x80 c
    then (if is_big5_trail d then c ∷ d ∷ behind else next)
    else next

-- The loop of `strip_nonebig5`, on the bytes that it looks at: what it stores.
pub big5_loop : List ℕ → List ℕ
unfolding big5_step
big5_loop [] = []
big5_loop (c ∷ []) = if within 32 127 c then c ∷ [] else []
big5_loop (c ∷ d ∷ []) = big5_step c d (big5_loop (d ∷ [])) [] []
big5_loop (c ∷ d ∷ e ∷ cs) =
    big5_step c d (big5_loop (d ∷ e ∷ cs)) (big5_loop (e ∷ cs)) (big5_loop cs)

-- `strip_nonebig5`: the string that is left in its buffer
pub strip_nonebig5 : List ℕ → ℕ → List ℕ
strip_nonebig5 str maxlen = big5_loop (take maxlen str)
