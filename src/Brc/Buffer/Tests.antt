-- ===== src/Brc/Buffer/Tests.antt =====
-- Runs on the buffer of all boards at concrete inputs.
use brs_bbs.Prelude.{ℕ, ◌≤◌, ◌≡◌, refl, List, [], ◌∷◌, arith, length, replicate}
use brs_bbs.Prelude.Bytes.{read_at-whole}
use brs_bbs.Brc.{BrcRec, biased}
use brs_bbs.Brc.Buffer.{
  find_record, BrcBuf, region, insert_record, trim_old, has_new, bytes16, bytes32, encode_recs,
}
use brs_bbs.Brc.Buffer.Find.{Entry, encode, lookup, find_record-encode}
use brs_bbs.Brc.Buffer.Insert.{insert_record-Absent}

abbrev read_at_time : ℕ → BrcRec
read_at_time t = record { create = t; modified = 7 }

abbrev two_read : List BrcRec
two_read = read_at_time 900 ∷ read_at_time 500 ∷ []

abbrev two_boards : List Entry
two_boards =
    record { bid = 7; recs = two_read } ∷ record { bid = 9; recs = read_at_time 300 ∷ [] } ∷ []

find_record-encode_example : find_record (encode two_boards) 9 ≡ lookup 9 two_boards
find_record-encode_example = find_record-encode two_boards 9 (ground arith)

abbrev two_held : BrcBuf
two_held = record { buf = encode two_boards; size = length (encode two_boards) }

insert_record-Absent_example :
    let r = insert_record (replicate 1024 0) 600 two_held 8 two_read in
    (region r ≡ encode (record { bid = 8; recs = trim_old 600 two_read } ∷ two_boards))
    × (r.size ≤ length r.buf)
unfolding encode bytes16 bytes32 encode_recs trim_old has_new biased
insert_record-Absent_example =
    insert_record-Absent (replicate 1024 0) 600 two_held 8 two_read two_boards refl (omega arith)
      (read_at-whole (encode two_boards)) (ground arith) (refl, (refl, tt)) refl (omega arith)
      (omega arith)
