-- ===== src/Records/Delete.antt =====
-- Deleting records is deleting a range of the bytes.
use brs_bbs.Prelude.{
  ℕ, zero, suc, ◌+◌, ◌-◌, ◌*◌, ◌^◌, ◌≤◌, ◌<◌, ◌≡◌, refl, sym, ap, inl, inr, Bool, true, false, ◌&&◌,
  ◌||◌, Option, none, some, List, ◌++◌, append-nil, arith, ltb, leb, ◌==◌, Bool-cases, ◌>>=◌,
  drop-whole, length, take, drop,
}
use brs_bbs.Records.{
  File, read_from, offset_of, Callback, copy_loop, cut, delete_records, sub_int, is_negative,
  delete_range,
}
use brs_bbs.Records.Copy.{copy_loop-Copied}

-- The bytes without the `n` from `o` on.
abbrev pub without : List ℕ → ℕ → ℕ → List ℕ
without bs o n = take o bs ++ drop (o + n) bs

-- The loop and the cut behind it.
copied_and_cut :
    (fuel : ℕ) (bs : List ℕ) (o n : ℕ)
    → o + n ≤ length bs
    → length bs < fuel
    → ◌>>=◌ {B = Option ℕ × File}
        (copy_loop fuel bs (o + n) o (length bs - o - n))
        (λ copied. some (some 0, some (cut copied (length bs) n)))
      ≡ some (some 0, some (without bs o n))
copied_and_cut fuel bs o n h f =
    let l = length bs in
    let c = copy_loop-Copied fuel bs (o + n) o (omega arith) h (omega arith) in
    let left : l - o - n ≡ l - (o + n) = omega arith in
    let fits : ltb l n ≡ false = ground arith in
    let kept : l - n ≡ o + (l - (o + n)) = omega arith in
    rw (left, c.done, fits, kept, c.front) refl

-- No `int` overflows on a file of less than 2^31 bytes.
sub_int-small : (a b : ℕ) → b ≤ a → a < 2 ^ 31 → sub_int a b ≡ a - b
sub_int-small a b h k = omega arith

not_negative : (n : ℕ) → n < 2 ^ 31 → is_negative n ≡ false
not_negative n h = ground arith

-- Where all the records are in a file of less than 2^31 bytes, `delete_records` of `num` records from
-- id `i + 1` on returns 0 and leaves the file without exactly their bytes, with fuel for the size of
-- the file.
pub delete_records-without :
    (fuel : ℕ) (bs : List ℕ) (size i num : ℕ)
    → offset_of size i + size * num ≤ length bs
    → length bs < 2 ^ 31
    → length bs < fuel
    → delete_records fuel (some bs) size (i + 1) num
      ≡ some (some 0, some (without bs (offset_of size i) (size * num)))
unfolding delete_records delete_range
delete_records-without fuel bs size i num h k f =
    let o = offset_of size i in
    let n = size * num in
    let l = length bs in
    let next : i + 1 ≡ suc i = omega arith in
    let lock : sub_int l o ≡ l - o = sub_int-small l o (omega arith) k in
    let inside : is_negative (l - o) ≡ false = not_negative (l - o) (omega arith) in
    let read : sub_int (l - o) n ≡ l - o - n =
      sub_int-small (l - o) n (omega arith) (omega arith) in
    let read_ok : is_negative (l - o - n) ≡ false = not_negative (l - o - n) (omega arith) in
    rw (next, lock, inside, read, read_ok)
      (elim (Bool-cases (l - o - n == 0)) [
        | inr more ↦ rw more (copied_and_cut fuel bs o n h f)
        | inl last ↦
            let at_end : l ≡ o + n = ground arith in
            let fits : ltb l n ≡ false = ground arith in
            let kept : l - n ≡ o = omega (arith, at_end) in
            rw (last, fits, kept, drop-whole (o + n) bs (omega (arith, at_end)))
              (ap (λ t. some (some 0, some t)) (sym (append-nil (take o bs))))
      ])

-- Where fewer bytes than asked for stand behind the place, but as many in the whole file,
-- `delete_records` returns 0 and cuts that many off the end: records in front of the place too.
pub delete_records-overrun :
    (fuel : ℕ) (bs : List ℕ) (size i num : ℕ)
    → offset_of size i ≤ length bs
    → length bs < offset_of size i + size * num
    → size * num ≤ length bs
    → length bs < 2 ^ 31
    → delete_records fuel (some bs) size (i + 1) num
      ≡ some (some 0, some (take (length bs - size * num) bs))
unfolding delete_records delete_range
delete_records-overrun fuel bs size i num h k m b =
    let o = offset_of size i in
    let n = size * num in
    let l = length bs in
    let next : i + 1 ≡ suc i = omega arith in
    let lock : sub_int l o ≡ l - o = sub_int-small l o h b in
    let inside : is_negative (l - o) ≡ false = not_negative (l - o) (omega arith) in
    let none_left : is_negative (sub_int (l - o) n) ≡ true = ground arith in
    let stop : (sub_int (l - o) n == 0 || is_negative (sub_int (l - o) n)) ≡ true =
      ground (arith, none_left) in
    let fits : ltb l n ≡ false = ground arith in rw (next, lock, inside, stop, fits) refl

-- What `delete_record2` with a callback does to a file.
abbrev pub deletes_if : Bool → List ℕ → ℕ → ℕ → Option ℕ × File
deletes_if true bs o size = (some 0, some (without bs o size))
deletes_if false bs o size = (none, some bs)

-- The result for an id: the record of id `i + 1` goes if it is whole and the callback agrees.
abbrev pub delete_outcome : List ℕ → List ℕ → ℕ → ℕ → Callback → Option ℕ × File
delete_outcome bs src size id none = (none, some bs)
delete_outcome bs src size zero (some agrees) = (none, some bs)
delete_outcome bs src size (suc i) (some agrees) =
    deletes_if
      (leb (offset_of size i + size) (length bs)
        && agrees (read_from bs (offset_of size i) size) src)
      bs (offset_of size i) size
