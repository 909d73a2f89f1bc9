-- ===== src/Aids/Tests.antt =====
-- Runs of the article ids at concrete inputs.
use brs_bbs.Prelude.{
  ℕ, ◌<◌, ◌≡◌, refl, inr, true, false, none, some, List, [], ◌∷◌, ◌++◌, flatten, arith, length,
}
use brs_bbs.Aids.{FileHeader, aidu2aidc, aidc2aidu, search_in_bfile}
use brs_bbs.Aids.Name.{
  aidu2fn, fn2aidu, fnlen, print_int, print_decimal, parse_name, numbered, pack, strtoul,
  signed_part, read_digits, second_number,
}
use brs_bbs.Aids.Name.Roundtrip.{fn2aidu-aidu2fn}
use brs_bbs.Aids.Code.{aidc2aidu-aidu2aidc}
use brs_bbs.Aids.Search.{first_index, last_index, or_lost, plain, bottom, search_in_bfile-flatten}

aidc2aidu-aidu2aidc_example :
    (length (aidu2aidc 20015998343868) ≡ 8)
    × (aidc2aidu (aidu2aidc 20015998343868 ++ (b'@' ∷ [])) ≡ 20015998343868)
aidc2aidu-aidu2aidc_example =
    aidc2aidu-aidu2aidc 20015998343868 (b'@' ∷ []) (omega arith) (inr refl)

-- `M.1` and `M.2`, the first at the bottom
abbrev name_one : List ℕ
name_one = b'M' ∷ b'.' ∷ b'1' ∷ []

abbrev name_two : List ℕ
name_two = b'M' ∷ b'.' ∷ b'2' ∷ []

abbrev two_reads : List (List FileHeader)
two_reads =
    (record { filename = name_one; is_bottom = true } ∷ [])
    ∷ (record { filename = name_two; is_bottom = false } ∷ [])
    ∷ []

search_in_bfile-flatten_example :
    search_in_bfile name_two 4097 two_reads
    ≡ elim (first_index (plain name_two 4097) (flatten two_reads)) [
      | some i ↦ some i
      | none ↦ or_lost (last_index (bottom name_two 4097) (flatten two_reads))
    ]
search_in_bfile-flatten_example = search_in_bfile-flatten name_two 4097 two_reads

-- `M.1.A.00F`
abbrev first_name : List ℕ
first_name = b'M' ∷ b'.' ∷ b'1' ∷ b'.' ∷ b'A' ∷ b'.' ∷ b'0' ∷ b'0' ∷ b'F' ∷ []

name_program : Unit {0}
unfolding aidu2fn fn2aidu print_int print_decimal parse_name numbered pack strtoul signed_part
    read_digits second_number
name_program = tt

run_aidu2fn : aidu2fn 4111 ≡ first_name
unfolding name_program
run_aidu2fn = refl

run_fn2aidu : fn2aidu first_name ≡ 4111
unfolding name_program
run_fn2aidu = refl

-- Without the second number, and without the A.
run_short : fn2aidu (b'M' ∷ b'.' ∷ b'1' ∷ b'.' ∷ b'A' ∷ []) ≡ 4096
unfolding name_program
run_short = refl

run_other : fn2aidu (b'M' ∷ b'.' ∷ b'1' ∷ b'.' ∷ b'B' ∷ []) ≡ 0
unfolding name_program
run_other = refl

-- A G article with a time that `%d` prints as negative.
fn2aidu-aidu2fn_example :
    (fn2aidu (aidu2fn 35184372088831) ≡ 35184372088831) × (length (aidu2fn 35184372088831) < fnlen)
fn2aidu-aidu2fn_example = fn2aidu-aidu2fn 35184372088831 (omega arith)
