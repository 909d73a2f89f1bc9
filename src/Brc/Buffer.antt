-- ===== src/Brc/Buffer.antt =====
-- The buffer of mbbsd/brc.c: for each board its number in 4 bytes, the number of its records in 2,
-- and the records of 8 bytes each, little-endian.
pub mod Find
pub mod Insert
mod Tests
use brs_bbs.Prelude.{
  ℕ, zero, suc, ◌+◌, ◌-◌, ◌*◌, ◌/◌, ◌%◌, ◌^◌, ◌≤◌, ◌<◌, min, ◌≡◌, refl, sym, ap, ap₂, ◌∙◌, subst,
  ◌≢◌, ◌↔◌, ◌⊎◌, inl, inr, Bool, true, false, not, ◌&&◌, ◌||◌, Option, none, some, List, [], ◌∷◌,
  ◌++◌, append-nil, append_assoc, map, flatten, arith, ltb, leb, ◌==◌, if◌then◌else◌, ltb→lt,
  lt→ltb, leb→le, ==_iff, tests, Bool-cases, Option-cases, List-cases, take-whole, within, length,
  get_elem?, set, length-append, length-set, take, drop, replicate, length-take, length-drop,
  take-append-drop, length-replicate,
}
use brs_bbs.Prelude.Bytes.{at, read_at, write_at}
use brs_bbs.Brc.{BrcRec, lt_time, brc_maxnum}

-- `*(brcnbrd_t*)p` and `*(brcbid_t*)p`
abbrev pub word16 : List ℕ → ℕ
word16 p = at p 0 + at p 1 * 2 ^ 8

abbrev pub word32 : List ℕ → ℕ
word32 p = at p 0 + at p 1 * 2 ^ 8 + at p 2 * 2 ^ 16 + at p 3 * 2 ^ 24

-- The loop of `brc_findrecord_in`, on fuel, from the offset `ptr`, at which `bytes` is the rest of
-- the region: the offset of the record, if there is one, and `*num`.
pub find_loop : ℕ → ℕ → List ℕ → ℕ → Option ℕ × ℕ
find_loop zero ptr bytes bid = (none, 0)
find_loop (suc fuel) ptr bytes bid =
    let num = word16 (drop 4 bytes) in
    let len = 6 + num * 8 in
    let next = find_loop fuel (ptr + len) (drop len bytes) bid in
    if not (ltb 6 (length bytes))
    then (none, 0)
    else if ltb (length bytes) len
    then (none, length bytes % 2 ^ 16)
    else if word32 bytes == bid
    then (some ptr, num)
    else next

-- `brc_findrecord_in`; each round steps over six bytes at least.
pub findrecord_in : List ℕ → ℕ → Option ℕ × ℕ
findrecord_in region bid = find_loop (length region) 0 region bid

-- `num` records of type `brc_rec` at `p`
pub records_at : ℕ → List ℕ → List BrcRec
records_at zero p = []
records_at (suc num) p =
    record { create = word32 p; modified = word32 (drop 4 p) } ∷ records_at num (drop 8 p)

-- The records behind the head of six bytes at the address found; none if it is 0.
pub records_found : List ℕ → Option ℕ × ℕ → List BrcRec
records_found region (none, num) = []
records_found region (some p, num) = records_at num (drop (p + 6) region)

-- `brc_find_record`
pub find_record : List ℕ → ℕ → List BrcRec
find_record region bid = records_found region (findrecord_in region bid)

-- The bytes that a store of a `brcnbrd_t` and of a `brcbid_t` or a `time4_t` leaves, in front of
-- others; and those of records.
pub bytes16 : ℕ → List ℕ → List ℕ
bytes16 n rest = n % 2 ^ 8 ∷ n / 2 ^ 8 % 2 ^ 8 ∷ rest

pub bytes32 : ℕ → List ℕ → List ℕ
bytes32 n rest = n % 2 ^ 8 ∷ n / 2 ^ 8 % 2 ^ 8 ∷ n / 2 ^ 16 % 2 ^ 8 ∷ n / 2 ^ 24 % 2 ^ 8 ∷ rest

pub encode_recs : List BrcRec → List ℕ → List ℕ
encode_recs [] rest = rest
encode_recs (r ∷ rs) rest = bytes32 r.create (bytes32 r.modified (encode_recs rs rest))

abbrev pub brc_maxsize : ℕ
brc_maxsize = 49152

abbrev pub brc_blocksize : ℕ
brc_blocksize = 1024

-- `brc_buf`, whose length is `brc_alloc`, and `brc_size`
pub record BrcBuf : Type 0 where
  pub buf : List ℕ
  pub size : ℕ

-- the bytes that the buffer holds
abbrev pub region : BrcBuf → List ℕ
region b = read_at b.buf 0 b.size

-- `memmove` inside the buffer
abbrev pub move : List ℕ → ℕ → ℕ → ℕ → List ℕ
move buf to from n = write_at buf to (read_at buf from n)

-- `while (num > 0 && list[num - 1].create < brc_expire_time) num--`
pub trim_old : ℕ → List BrcRec → List BrcRec
trim_old expire_time [] = []
trim_old expire_time (r ∷ rs) =
    let rest = trim_old expire_time rs in
    elim rest [ [] ↦ if lt_time r.create expire_time then [] else r ∷ [] | x ∷ xs ↦ r ∷ x ∷ xs ]

-- `num > 0 && list[0].create > brc_expire_time`
pub has_new : ℕ → List BrcRec → Bool
has_new expire_time [] = false
has_new expire_time (r ∷ rs) = lt_time expire_time r.create

-- `brc_putrecord`: the buffer after the stores at `ptr`.
pub putrecord : ℕ → List ℕ → ℕ → ℕ → ℕ → List BrcRec → List ℕ
putrecord expire_time buf ptr endp bid list =
    let recs = take brc_maxnum list in
    let head = write_at buf ptr (bytes32 bid (bytes16 (length recs) [])) in
    if has_new expire_time list && ltb (ptr + 6) endp
    then (if leb (ptr + 6 + length recs * 8) endp
        then write_at head (ptr + 6) (encode_recs recs [])
        else head)
    else buf

-- `brc_enlarge_buf`: `fresh` is what `malloc` left in the new block; `none` is 0.
pub enlarge_buf : List ℕ → List ℕ → Option (List ℕ)
enlarge_buf fresh buf = if leb brc_maxsize (length buf) then none else some (buf ++ fresh)

-- `if (brc_size > brc_alloc && !brc_enlarge_buf()) brc_size = BRC_MAXSIZE;`
pub make_room : List ℕ → BrcBuf → BrcBuf
make_room fresh b =
    if ltb (length b.buf) b.size
    then elim (enlarge_buf fresh b.buf) [
      | some buf ↦ record b { buf = buf }
      | none ↦ record b { size = brc_maxsize }
    ]
    else b

-- `if (brc_size > new_size) memmove(brc_buf + new_size, brc_buf, brc_size - new_size);`
pub move_behind : BrcBuf → ℕ → List ℕ
move_behind room new_size =
    if ltb new_size room.size then move room.buf new_size 0 (room.size - new_size) else room.buf

-- The record in front of all others, once there is room.
pub put_front : ℕ → BrcBuf → ℕ → ℕ → List BrcRec → BrcBuf
put_front expire_time room new_size bid list = record room {
  buf = putrecord expire_time (move_behind room new_size) 0 new_size bid list;
}

-- `brc_insert_record` where the board is not found; `dangling` is `tnum`.
pub insert_front : List ℕ → ℕ → BrcBuf → ℕ → List BrcRec → ℕ → BrcBuf
insert_front fresh expire_time b bid list dangling =
    let new_size = 6 + length list * 8 in
    let kept = b.size - dangling in
    let room = make_room fresh (record b { size = kept + new_size }) in
    if length list == 0
    then record b { size = kept }
    else put_front expire_time room new_size bid list

-- `brc_insert_record` where the old records of the board are at `ptr`. Only here the size that a
-- full buffer cannot take is also cut off what is moved.
pub insert_at : List ℕ → ℕ → BrcBuf → ℕ → List BrcRec → ℕ → ℕ → BrcBuf
insert_at fresh expire_time b bid list ptr tnum =
    let len = 6 + tnum * 8 in
    let new_size = 6 + length list * 8 in
    let end_size = b.size - (ptr + len) in
    let wanted = b.size + new_size - len in
    let room = make_room fresh (record b { size = wanted }) in
    let end_left = end_size - (wanted - room.size) in
    let moved =
      if ltb 0 end_left && not (ptr + new_size == ptr + len)
      then move room.buf (ptr + new_size) (ptr + len) end_left
      else room.buf in
    if length list == 0
    then record b { buf = move b.buf ptr (ptr + len) end_size; size = b.size - len }
    else record room { buf = putrecord expire_time moved ptr (length room.buf) bid list }

-- The two cases of `brc_insert_record`.
pub insert_found : List ℕ → ℕ → BrcBuf → ℕ → List BrcRec → Option ℕ × ℕ → BrcBuf
insert_found fresh expire_time b bid list (none, num) =
    insert_front fresh expire_time b bid list num
insert_found fresh expire_time b bid list (some ptr, num) =
    insert_at fresh expire_time b bid list ptr num

-- `brc_insert_record`
pub insert_record : List ℕ → ℕ → BrcBuf → ℕ → List BrcRec → BrcBuf
insert_record fresh expire_time b bid list =
    insert_found fresh expire_time b bid (trim_old expire_time list) (findrecord_in (region b) bid)
