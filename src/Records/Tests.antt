-- ===== src/Records/Tests.antt =====
-- Runs of the record files on records of two bytes, and each theorem at an input.
use brs_bbs.Prelude.{
  ℕ, ◌≤◌, ◌<◌, ◌≡◌, refl, Bool, false, none, some, List, [], ◌∷◌, arith, ◌==◌, if◌then◌else◌,
}
use brs_bbs.Records.{
  get_num_records, get_records, get_record, substitute_record, append_record, may_change,
  substitute_record2, copy_loop, delete_records, delete_record, may_delete, delete_record2,
  apply_loop, apply_record, delete_range, delete_checked,
}
use brs_bbs.Records.Delete.{without, delete_records-without}
use brs_bbs.Records.Roundtrip.{append_record-get_record}

program : Unit {0}
unfolding get_num_records get_records get_record substitute_record append_record may_change
    substitute_record2 copy_loop delete_range delete_records delete_record may_delete delete_checked
    delete_record2 apply_loop apply_record
program = tt

abbrev three : List ℕ
three = 1 ∷ 1 ∷ 2 ∷ 2 ∷ 3 ∷ 3 ∷ []

run_delete : delete_record 9 (some three) 2 2 ≡ some (some 0, some (1 ∷ 1 ∷ 3 ∷ 3 ∷ []))
unfolding program
run_delete = refl

-- Id 0 is not refused: the last record goes.
run_zero : delete_record 9 (some three) 2 0 ≡ some (some 0, some (1 ∷ 1 ∷ 2 ∷ 2 ∷ []))
unfolding program
run_zero = refl

-- Two records asked for from the last on: the second goes too.
run_overrun : delete_records 9 (some three) 2 3 2 ≡ some (some 0, some (1 ∷ 1 ∷ []))
unfolding program
run_overrun = refl

run_delete2 : delete_record2 9 (some three) [] 2 2 none ≡ some (none, some three)
unfolding program
run_delete2 = refl

abbrev starts_with : List ℕ → List ℕ → Bool
starts_with (x ∷ xs) (y ∷ ys) = x == y
starts_with xs ys = false

run_substitute2 :
    substitute_record2 (some three) (2 ∷ []) (7 ∷ 7 ∷ []) 2 2 (some starts_with)
    ≡ (some 0, some (1 ∷ 1 ∷ 7 ∷ 7 ∷ 3 ∷ 3 ∷ []))
unfolding program
run_substitute2 = refl

abbrev is_two : List ℕ → ℕ
is_two [] = 0
is_two (x ∷ xs) = if x == 2 then 5 else 0

run_apply : apply_record 9 (some three) is_two 2 ≡ some (some 5)
unfolding program
run_apply = refl

delete_records-without_example :
    delete_records 9 (some three) 2 2 1 ≡ some (some 0, some (without three 2 2))
delete_records-without_example =
    delete_records-without 9 three 2 1 1 (omega arith) (omega arith) (omega arith)

append_record-get_record_example :
    let r = append_record (some (9 ∷ three)) (4 ∷ 4 ∷ []) 2 in
    (r.0 ≡ some 4)
    × (get_num_records r.1 2 ≡ 4)
    × (get_record r.1 2 4 ≡ some (1, 4 ∷ 4 ∷ []))
    × ((id : ℕ) → 1 ≤ id → id < 4 → get_record r.1 2 id ≡ get_record (some (9 ∷ three)) 2 id)
unfolding program
append_record-get_record_example =
    append_record-get_record (some (9 ∷ three)) (4 ∷ 4 ∷ []) 2 (omega arith) refl (omega arith)
