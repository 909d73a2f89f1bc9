-- ===== src/Records.antt =====
-- Files of fixed size records (common/sys/record.c).
--
-- A file is `none` where it does not exist, else its bytes; opening fails only for a file that does
-- not exist, and the other calls of the system do what they are asked to. A file that is opened
-- twice has a read and a write position of its own. Results are those of the C functions, with -1
-- as `none`. Locks are left out. An id is not negative; sizes times ids and counts fit a `size_t`,
-- and numbers of records an `int`. What the code puts into an `int` keeps its low 32 bits.
pub mod Copy
pub mod Delete
pub mod Roundtrip
mod Tests
use brs_bbs.Prelude.{
  ℕ, zero, suc, ◌+◌, ◌-◌, ◌*◌, ◌/◌, ◌%◌, ◌^◌, ◌≤◌, ◌<◌, min, ◌≡◌, refl, sym, ap, ap₂, ◌∙◌, subst,
  ◌≢◌, ◌↔◌, ◌⊎◌, inl, inr, Bool, true, false, not, ◌&&◌, ◌||◌, Option, none, some, List, [], ◌∷◌,
  ◌++◌, append-nil, append_assoc, map, flatten, arith, ltb, leb, ◌==◌, if◌then◌else◌, ltb→lt,
  lt→ltb, leb→le, ==_iff, tests, Bool-cases, Option-cases, List-cases, ◌>>=◌, take-whole,
  drop-whole, take-append_le, take-append_past, drop-append_past, drop-drop, take-take,
  drop-append_le, drop-take, within, length, get_elem?, set, length-append, length-set, take, drop,
  replicate, length-take, length-drop, take-append-drop, length-replicate,
}

abbrev pub File : Type 0
File = Option (List ℕ)

-- `lseek` to `o` and `write`: what lies between the end of the file and `o` is zero.
abbrev pub write_over : List ℕ → ℕ → List ℕ → List ℕ
write_over bs o c = take o bs ++ (replicate (o - length bs) 0 ++ (c ++ drop (o + length c) bs))

-- `lseek` to `o` and `read` of `n` bytes.
abbrev pub read_from : List ℕ → ℕ → ℕ → List ℕ
read_from bs o n = take n (drop o bs)

-- `OpenCreate`
abbrev pub created : File → List ℕ
created none = []
created (some bs) = bs

-- The offset of the record of id `i + 1`.
abbrev pub offset_of : ℕ → ℕ → ℕ
offset_of size i = size * i

-- `a - b` in an `int`, as its 32 bits, and whether an `int` is negative.
abbrev pub sub_int : ℕ → ℕ → ℕ
sub_int a b = (a + (2 ^ 32 - b % 2 ^ 32)) % 2 ^ 32

abbrev pub is_negative : ℕ → Bool
is_negative n = leb (2 ^ 31) n

unfoldable pub get_num_records : File → ℕ → ℕ
get_num_records none size = 0
get_num_records (some bs) size = length bs / size

-- The number of records read, and the bytes read.
unfoldable pub get_records : File → ℕ → ℕ → ℕ → Option (ℕ × List ℕ)
get_records f size zero number = none
get_records none size (suc i) number = none
get_records (some bs) size (suc i) number =
    let got = read_from bs (offset_of size i) (size * number) in some (length got / size, got)

unfoldable pub get_record : File → ℕ → ℕ → Option (ℕ × List ℕ)
get_record f size id = get_records f size id 1

unfoldable pub substitute_record : File → List ℕ → ℕ → ℕ → Option ℕ × File
substitute_record f rec_ size zero = (none, f)
substitute_record f rec_ size (suc i) =
    (some 0, some (write_over (created f) (offset_of size i) rec_))

-- The size of the file is put into an `int`; -1 and nothing written where that is negative.
unfoldable pub append_record : File → List ℕ → ℕ → Option ℕ × File
append_record f rec_ size =
    let fsize = length (created f) % 2 ^ 32 in
    let index = fsize / size in
    if is_negative fsize
    then (none, some (created f))
    else (some (index + 1), some (write_over (created f) (index * size) rec_))

-- `record_callback_t`, or NULL.
abbrev pub Callback : Type 0
Callback = Option (List ℕ → List ℕ → Bool)

-- The loop on the callback that is left at once: whether the record may be changed.
unfoldable pub may_change : Callback → List ℕ → ℕ → ℕ → List ℕ → Bool
may_change none bs o size src = true
may_change (some cb) bs o size src =
    let p = read_from bs o size in if length p == size then cb p src else false

unfoldable pub substitute_record2 : File → List ℕ → List ℕ → ℕ → ℕ → Callback → Option ℕ × File
substitute_record2 f src dest size zero cb = (none, f)
substitute_record2 f src dest size (suc i) cb =
    let bs = created f in
    let o = offset_of size i in
    if may_change cb bs o size src then (some 0, some (write_over bs o dest)) else (none, some bs)

abbrev pub bufsize : ℕ
bufsize = 512

-- `while (d < readsize && (c = read(fi, buf, BUFSIZE)) > 0) { write(fo, buf, c); d += c; }` from the
-- read position `r` and the write position `w`; `left` is `readsize - d`, 0 if that is negative.
unfoldable pub copy_loop : ℕ → List ℕ → ℕ → ℕ → ℕ → Option (List ℕ)
copy_loop zero bs r w left = none
copy_loop (suc fuel) bs r w left =
    let c = read_from bs r bufsize in
    let n = length c in
    let rest = copy_loop fuel (write_over bs w c) (r + n) (w + n) (left - n) in
    if left == 0 || n == 0 then some bs else rest

-- `ftruncate(fo, st.st_size - size*num)`, which refuses a negative size.
abbrev pub cut : List ℕ → ℕ → ℕ → List ℕ
cut bs total taken = if ltb total taken then bs else take (total - taken) bs

-- `delete_records` behind the opening, for `locksize` and the places that `lseek` leaves.
unfoldable pub delete_range : ℕ → List ℕ → ℕ → ℕ → ℕ → ℕ → Option (Option ℕ × File)
delete_range fuel bs locksize r w taken =
    let total = length bs in
    let readsize = sub_int locksize taken in
    if is_negative locksize
    then some (none, some bs)
    else if readsize == 0 || is_negative readsize
    then some (some 0, some (cut bs total taken))
    else (do copied ← copy_loop fuel bs r w readsize; some (some 0, some (cut copied total taken)))

-- `none` as a whole result is a loop that has not ended. For id 0 the offset is `-size`: to seek there
-- fails, which leaves the place at the start.
unfoldable pub delete_records : ℕ → File → ℕ → ℕ → ℕ → Option (Option ℕ × File)
delete_records fuel none size id num = some (none, none)
delete_records fuel (some bs) size zero num =
    delete_range fuel bs (sub_int (length bs + size) 0) (size * num - size) 0 (size * num)
delete_records fuel (some bs) size (suc i) num =
    let o = offset_of size i in
    delete_range fuel bs (sub_int (length bs) o) (o + size * num) o (size * num)

unfoldable pub delete_record : ℕ → File → ℕ → ℕ → Option (Option ℕ × File)
delete_record fuel f size id = delete_records fuel f size id 1

-- Without a callback the position behind the record is compared with the one in front of it.
unfoldable pub may_delete : Callback → List ℕ → ℕ → ℕ → List ℕ → Bool
may_delete none bs o size src = o + size == o
may_delete (some cb) bs o size src = may_change (some cb) bs o size src

-- `delete_record2` behind the opening, where the offset is not negative.
unfoldable pub delete_checked : ℕ → List ℕ → List ℕ → ℕ → ℕ → Callback → Option (Option ℕ × File)
delete_checked fuel bs src size o cb =
    let total = length bs in
    let locksize = sub_int total o in
    let readsize = sub_int locksize size in
    if is_negative locksize
    then some (none, some bs)
    else if may_delete cb bs o size src
    then (do
      copied ← copy_loop fuel bs (o + size) o (if is_negative readsize then 0 else readsize)
      some (some 0, some (cut copied total size)))
    else some (none, some bs)

-- For id 0 the offset is `-size`, and to seek there fails.
unfoldable pub delete_record2 : ℕ → File → List ℕ → ℕ → ℕ → Callback → Option (Option ℕ × File)
delete_record2 fuel none src size id cb = some (none, none)
delete_record2 fuel (some bs) src size zero cb =
    if size == 0 then delete_checked fuel bs src size 0 cb else some (none, some bs)
delete_record2 fuel (some bs) src size (suc i) cb =
    delete_checked fuel bs src size (offset_of size i) cb

-- `apply_record`: the records from `o` on, up to the first for which the function is not 0.
unfoldable pub apply_loop : ℕ → List ℕ → ℕ → (List ℕ → ℕ) → Option ℕ
apply_loop zero bs size fptr = none
apply_loop (suc fuel) bs size fptr =
    let item = take size bs in
    let rest = apply_loop fuel (drop size bs) size fptr in
    if length item == size then (if fptr item == 0 then rest else some (fptr item)) else some 0

unfoldable pub apply_record : ℕ → File → (List ℕ → ℕ) → ℕ → Option (Option ℕ)
apply_record fuel none fptr size = some none
apply_record fuel (some bs) fptr size = do ret ← apply_loop fuel bs size fptr; some (some ret)
