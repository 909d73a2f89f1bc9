-- ===== src/Records/Roundtrip.antt =====
-- What is written as a record is read back, and no other record changes.
use brs_bbs.Prelude.{
  ℕ, zero, suc, ◌+◌, ◌-◌, ◌*◌, ◌/◌, ◌%◌, ◌^◌, ◌≤◌, ◌<◌, ◌≡◌, refl, sym, ap, ◌∙◌, inl, inr, false,
  none, some, List, ◌++◌, arith, ltb, leb, ◌==◌, ltb→lt, Bool-cases, take-whole, take-append_le,
  drop-append_past, drop-drop, take-take, drop-append_le, drop-take, length, take, drop,
  length-take, length-drop,
}
use brs_bbs.Records.{
  File, write_over, read_from, created, get_num_records, get_records, get_record, substitute_record,
  append_record,
}
use brs_bbs.Records.Copy.{write_over-inside, length-write_over_at}

read_from-write_over_same :
    (bs : List ℕ) (o : ℕ) (c : List ℕ)
    → o ≤ length bs
    → read_from (write_over bs o c) o (length c) ≡ c
read_from-write_over_same bs o c h =
    let front : length (take o bs) ≡ o = omega (arith, length-take o bs) in
    let rest = drop (o + length c) bs in
    ap (λ t. take (length c) (drop o t)) (write_over-inside bs o c h)
    ∙ ap (take (length c)) (drop-append_past o 0 (take o bs) (c ++ rest) (omega (arith, front)))
    ∙ take-append_le (length c) c rest (omega arith)
    ∙ take-whole (length c) c (omega arith)

read_from-write_over_before :
    (bs : List ℕ) (o : ℕ) (c : List ℕ) (p n : ℕ)
    → o ≤ length bs
    → p + n ≤ o
    → read_from (write_over bs o c) p n ≡ read_from bs p n
read_from-write_over_before bs o c p n h k =
    let front : length (take o bs) ≡ o = omega (arith, length-take o bs) in
    let rest = c ++ drop (o + length c) bs in
    let part = drop p (take o bs) in
    ap (λ t. take n (drop p t)) (write_over-inside bs o c h)
    ∙ ap (take n) (drop-append_le p (take o bs) rest (omega (arith, front)))
    ∙ take-append_le n part rest (omega (arith, front, length-drop p (take o bs)))
    ∙ ap (take n) (drop-take p o bs)
    ∙ take-take n (o - p) (drop p bs) (omega arith)

read_from-write_over_behind :
    (bs : List ℕ) (o : ℕ) (c : List ℕ) (p n : ℕ)
    → o ≤ length bs
    → o + length c ≤ p
    → read_from (write_over bs o c) p n ≡ read_from bs p n
read_from-write_over_behind bs o c p n h k =
    let front : length (take o bs) ≡ o = omega (arith, length-take o bs) in
    let rest = drop (o + length c) bs in
    let past = p - (o + length c) in
    ap (λ t. take n (drop p t)) (write_over-inside bs o c h)
    ∙ ap (take n) (
        drop-append_past p (p - o) (take o bs) (c ++ rest) (omega (arith, front))
        ∙ drop-append_past (p - o) past c rest (omega arith)
        ∙ drop-drop past (o + length c) bs
        ∙ ap (λ k. drop k bs) (omega arith))

-- The record of each id is its bytes.
get_record-bytes :
    (bs : List ℕ) (size i : ℕ)
    → get_record (some bs) size (suc i)
      ≡ some (length (read_from bs (i * size) size) / size, read_from bs (i * size) size)
unfolding get_record get_records
get_record-bytes bs size i =
    let o : size * i ≡ i * size = grind arith in
    let n : size * 1 ≡ size = omega arith in rw (o, n) refl

-- `append_record` of a record of the right size, to a file that stays below 2^31 bytes with it, returns
-- the id at which `get_record` reads it back, one more than the records there were; the file has one
-- record more; and all records in front read as before. A piece of a record at the end of the file
-- is overwritten.
pub append_record-get_record :
    (f : File) (rec_ : List ℕ) (size : ℕ)
    → 1 ≤ size
    → length rec_ ≡ size
    → length (created f) + size < 2 ^ 31
    → let r = append_record f rec_ size in
      let n = get_num_records f size + 1 in
      (r.0 ≡ some n)
      × (get_num_records r.1 size ≡ n)
      × (get_record r.1 size n ≡ some (1, rec_))
      × ((id : ℕ)
          → 1 ≤ id
          → id < n
          → get_record r.1 size id ≡ get_record (some (created f)) size id)
unfolding append_record get_num_records
append_record-get_record f rec_ size h e small =
    let bs = created f in
    let q = length bs / size in
    let in_file : q * size ≤ length bs = omega arith in
    let next : q + 1 ≡ suc q = omega arith in
    let bs' = write_over bs (q * size) rec_ in
    let grown : length bs' ≡ q * size + size =
      length-write_over_at bs (q * size) rec_ in_file
      ∙ grown_to (length bs) size (length rec_) h e in
    let same : read_from bs' (q * size) size ≡ rec_ =
      ap (read_from bs' (q * size)) (sym e)
      ∙ read_from-write_over_same bs (q * size) rec_ in_file in
    let whole : length bs % 2 ^ 32 ≡ length bs = omega arith in
    let positive : leb (2 ^ 31) (length bs) ≡ false = ground arith in
    rw (whole, positive, sym (count_of f))
      (
        refl,
        ap (λ l. l / size) grown ∙ grind arith,
        rw next (
            get_record-bytes bs' size q
            ∙ rw same (ap (λ k. some (k, rec_)) (rw e (one_each size h)))),
        λ id l k.
            let i = id - 1 in
            let id' : id ≡ suc i = omega arith in
            let in_front : i * size + size ≤ q * size = grind arith in
            let kept =
              read_from-write_over_before bs (q * size) rec_ (i * size) size in_file in_front in
            rw id' (
              get_record-bytes bs' size i
              ∙ ap (λ t. some (length t / size, t)) kept
              ∙ sym (get_record-bytes bs size i)),
      )
  where
    count_of : (f : File) → length (created f) / size + 1 ≡ get_num_records f size + 1
    count_of none = let z : 0 / size ≡ 0 = grind arith in ap (λ k. k + 1) z
    count_of (some bs) = refl

    one_each : (n : ℕ) → 1 ≤ n → n / n ≡ 1
    one_each n l = grind arith

    grown_to : (l n c : ℕ) → 1 ≤ n → c ≡ n → l / n * n + c + (l - (l / n * n + c)) ≡ l / n * n + n
    grown_to l n c h e = grind arith

-- `substitute_record` of a record that is in the file returns 0; the record reads as what was
-- written, every other record of the file reads as before, and there are as many.
pub substitute_record-get_record :
    (bs rec_ : List ℕ) (size id : ℕ)
    → 1 ≤ size
    → length rec_ ≡ size
    → 1 ≤ id
    → id ≤ length bs / size
    → let r = substitute_record (some bs) rec_ size id in
      (r.0 ≡ some 0)
      × (get_num_records r.1 size ≡ length bs / size)
      × (get_record r.1 size id ≡ some (1, rec_))
      × ((other : ℕ)
          → 1 ≤ other
          → (other == id) ≡ false
          → get_record r.1 size other ≡ get_record (some bs) size other)
unfolding substitute_record get_num_records
substitute_record-get_record bs rec_ size zero h e l k = absurd (omega arith)
substitute_record-get_record bs rec_ size (suc i) h e l k =
    let o : size * i ≡ i * size = grind arith in
    let in_file : i * size + size ≤ length bs = inside i size (length bs) h k in
    let bs' = write_over bs (i * size) rec_ in
    let same : read_from bs' (i * size) size ≡ rec_ =
      ap (read_from bs' (i * size)) (sym e)
      ∙ read_from-write_over_same bs (i * size) rec_ (omega arith) in
    rw o (
      refl,
      ap (λ n. n / size) (length-write_over_at bs (i * size) rec_ (omega arith) ∙ omega (arith, e)),
      get_record-bytes bs' size i ∙ rw same (ap (λ n. some (n, rec_)) (rw e (one_each size h))),
      λ other m ne.
          let j = other - 1 in
          let other' : other ≡ suc j = omega arith in
          let apart : (j == i) ≡ false = ground arith in
          rw other' (
            get_record-bytes bs' size j
            ∙ ap (λ t. some (length t / size, t)) (kept j apart)
            ∙ sym (get_record-bytes bs size j)),
    )
  where
    inside : (i n l : ℕ) → 1 ≤ n → suc i ≤ l / n → i * n + n ≤ l
    inside i n l h k = grind arith

    one_each : (n : ℕ) → 1 ≤ n → n / n ≡ 1
    one_each n l = grind arith

    multiples_apart : (j i n : ℕ) → j < i → j * n + n ≤ i * n
    multiples_apart j i n h = grind arith

    behind : (j i : ℕ) → (j == i) ≡ false → ltb j i ≡ false → i < j
    behind j i n b = ground arith

    kept :
        (j : ℕ)
        → (j == i) ≡ false
        → read_from (write_over bs (i * size) rec_) (j * size) size ≡ read_from bs (j * size) size
    kept j ne = elim (Bool-cases (ltb j i)) [
      | inl below ↦
          read_from-write_over_before bs (i * size) rec_ (j * size) size
            (omega (arith, inside i size (length bs) h k))
            (multiples_apart j i size (ltb→lt j i below))
      | inr above ↦
          read_from-write_over_behind bs (i * size) rec_ (j * size) size
            (omega (arith, inside i size (length bs) h k))
            (rw e (multiples_apart i j size (behind j i ne above)))
    ]
