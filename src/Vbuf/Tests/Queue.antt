-- ===== src/Vbuf/Tests/Queue.antt =====
-- The operations on a buffer whose data wraps, and on one whose data does not.
use brs_bbs.Prelude.{◌≤◌, ◌≡◌, refl, true, some, [], ◌∷◌, arith}
use brs_bbs.Prelude.Bytes.{tabulate}
use brs_bbs.Vbuf.{Vbuf, add, peek, pop, popn, putblk, getblk, cstr, getstr}
use brs_bbs.Vbuf.Contents.{IsValid, contents}
use brs_bbs.Vbuf.Single.{Pops, single_refines}
use brs_bbs.Vbuf.Putblk.{Puts, putblk_refines}
use brs_bbs.Vbuf.Getblk.{Gets, getblk_refines}
use brs_bbs.Vbuf.Cstr.{Strings, cstr_refines}
use brs_bbs.Vbuf.Getstr.{getstr-NoNul}

-- it holds 1, 2, 3, 4
abbrev wrapped : Vbuf
wrapped = record { buf = 3 ∷ 4 ∷ 0 ∷ 0 ∷ 1 ∷ 2 ∷ []; buf_end = 6; capacity = 5; head = 4; tail = 2 }

-- it holds 'A', 'B', 0, 'C'
abbrev flat : Vbuf
flat = record {
  buf = 0 ∷ b'A' ∷ b'B' ∷ 0 ∷ b'C' ∷ 0 ∷ 0 ∷ [];
  buf_end = 7;
  capacity = 6;
  head = 1;
  tail = 5;
}

wrapped-IsValid : IsValid wrapped
wrapped-IsValid = record {
  storage = refl;
  one_free = refl;
  head_in = omega arith;
  tail_in = omega arith;
}

flat-IsValid : IsValid flat
flat-IsValid = record {
  storage = refl;
  one_free = refl;
  head_in = omega arith;
  tail_in = omega arith;
}

single_refines_example :
    (IsValid (add wrapped 9).1
      × ((add wrapped 9).0 ≡ true)
      × (contents (add wrapped 9).1 ≡ 1 ∷ 2 ∷ 3 ∷ 4 ∷ 9 ∷ []))
    × (IsValid (pop wrapped).1
        × Pops (1 ∷ 2 ∷ 3 ∷ 4 ∷ []) (pop wrapped).0 (contents (pop wrapped).1)
        × (peek wrapped ≡ (pop wrapped).0))
    × (IsValid (popn wrapped 3) × (contents (popn wrapped 3) ≡ 4 ∷ []))
unfolding contents tabulate
single_refines_example = single_refines wrapped 9 3 wrapped-IsValid (omega arith)

putblk_refines_example : Puts 1 (1 ∷ 2 ∷ 3 ∷ 4 ∷ []) (9 ∷ []) (putblk wrapped (9 ∷ []))
unfolding contents tabulate
putblk_refines_example = putblk_refines wrapped (9 ∷ []) wrapped-IsValid

getblk_refines_example : Gets (1 ∷ 2 ∷ 3 ∷ 4 ∷ []) 3 (getblk wrapped 3)
unfolding contents tabulate
getblk_refines_example = getblk_refines wrapped 3 wrapped-IsValid

cstr_refines_example : Strings (1 ∷ 2 ∷ 3 ∷ 4 ∷ []) (cstr wrapped)
unfolding contents tabulate
cstr_refines_example = cstr_refines wrapped wrapped-IsValid

getstr-NoNul_example :
    (v' : Vbuf) × (getstr wrapped 3 ≡ some (some (1 ∷ 2 ∷ 0 ∷ [], v')))
    × IsValid v'
    × (contents v' ≡ 4 ∷ [])
    × (3 ≤ 3)
unfolding contents tabulate
getstr-NoNul_example =
    getstr-NoNul wrapped 3 wrapped-IsValid (omega arith) (λ e. cc e) (ground arith)
