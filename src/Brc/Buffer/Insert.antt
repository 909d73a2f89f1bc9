-- ===== src/Brc/Buffer/Insert.antt =====
-- `brc_insert_record` of a board that the buffer does not have.
use brs_bbs.Prelude.{
  ℕ, zero, suc, ◌+◌, ◌-◌, ◌*◌, ◌≤◌, ◌<◌, ◌≡◌, refl, sym, ap, ap₂, ◌∙◌, inl, inr, true, false, none,
  List, [], ◌∷◌, ◌++◌, arith, ltb, leb, ◌==◌, Bool-cases, take-whole, length, length-append,
}
use brs_bbs.Prelude.Bytes.{
  at, read_at, write_at, length-tabulate, at-tabulate, length-write_at, at-write_at, at-append,
  list_ext, read_at-zero,
}
use brs_bbs.Brc.{BrcRec, brc_maxnum}
use brs_bbs.Brc.Buffer.{
  insert_found, move_behind, put_front, bytes16, bytes32, encode_recs, find_loop, findrecord_in,
  BrcBuf, region, trim_old, has_new, putrecord, enlarge_buf, make_room, insert_front, insert_record,
  brc_maxsize, brc_blocksize,
}
use brs_bbs.Brc.Buffer.Find.{
  find_loop-encode_nil, find_loop-entry, length-entry, Entry, encode, AreStored, entry_bytes,
  length-entry_bytes, encode-entry_bytes,
}

-- One write behind another.
at-write_at_twice :
    (buf : List ℕ) (o : ℕ) (xs ys : List ℕ) (i : ℕ)
    → i < length buf
    → at (write_at (write_at buf o xs) (o + length xs) ys) i ≡ at (write_at buf o (xs ++ ys)) i
at-write_at_twice buf o xs ys i l = ground (
  arith,
  at-write_at (write_at buf o xs) (o + length xs) ys i,
  length-write_at buf o xs,
  at-write_at buf o xs i,
  at-write_at buf o (xs ++ ys) i,
  length-append xs ys,
  at-append xs ys (i - o),
)

write_at-append :
    (buf : List ℕ) (o : ℕ) (xs ys : List ℕ)
    → write_at (write_at buf o xs) (o + length xs) ys ≡ write_at buf o (xs ++ ys)
write_at-append buf o xs ys =
    list_ext _ _
      (length-write_at (write_at buf o xs) (o + length xs) ys
        ∙ length-write_at buf o xs
        ∙ sym (length-write_at buf o (xs ++ ys)))
      (λ i l. at-write_at_twice buf o xs ys i (
        omega (
          arith,
          length-write_at (write_at buf o xs) (o + length xs) ys,
          length-write_at buf o xs,
        )))

-- What was moved behind the new record, and the record in front of it.
at-front :
    (buf rec : List ℕ) (sz i : ℕ)
    → length rec + sz ≤ length buf
    → i < length rec + sz
    → at (write_at (write_at buf (length rec) (read_at buf 0 sz)) 0 rec) i
      ≡ at (rec ++ read_at buf 0 sz) i
at-front buf rec sz i h l = ground (
  arith,
  at-write_at (write_at buf (length rec) (read_at buf 0 sz)) 0 rec i,
  at-write_at buf (length rec) (read_at buf 0 sz) i,
  length-write_at buf (length rec) (read_at buf 0 sz),
  length-tabulate sz (λ j. at buf (0 + j)),
  at-append rec (read_at buf 0 sz) i,
)

read_at-front :
    (buf rec : List ℕ) (sz : ℕ)
    → length rec + sz ≤ length buf
    → read_at (write_at (write_at buf (length rec) (read_at buf 0 sz)) 0 rec) 0 (length rec + sz)
      ≡ rec ++ read_at buf 0 sz
read_at-front buf rec sz h =
    let whole = write_at (write_at buf (length rec) (read_at buf 0 sz)) 0 rec in
    let n : length (read_at whole 0 (length rec + sz)) ≡ length rec + sz =
      length-tabulate (length rec + sz) _ in
    list_ext _ _
      (omega
        (arith, n, length-append rec (read_at buf 0 sz), length-tabulate sz (λ j. at buf (0 + j))))
      (λ i l.
        let l' : i < length rec + sz = omega arith in
        at-tabulate (length rec + sz) (λ j. at whole (0 + j)) i l'
        ∙ ap (at whole) (omega arith)
        ∙ at-front buf rec sz i h l')

read_at-more :
    (buf fresh : List ℕ) (sz : ℕ) → sz ≤ length buf → read_at (buf ++ fresh) 0 sz ≡ read_at buf 0 sz
read_at-more buf fresh sz h =
    list_ext _ _ (length-tabulate sz _ ∙ sym (length-tabulate sz _)) (λ i l.
      let l' : i < sz = omega (arith, length-tabulate sz (λ j. at (buf ++ fresh) (0 + j))) in
      at-tabulate sz (λ j. at (buf ++ fresh) (0 + j)) i l'
      ∙ ground (arith, at-append buf fresh (0 + i))
      ∙ sym (at-tabulate sz (λ j. at buf (0 + j)) i l'))

has_new-pos : (e : ℕ) (list : List BrcRec) → has_new e list ≡ true → 0 < length list
unfolding has_new
has_new-pos e [] h = absurd (ground arith)
has_new-pos e (r ∷ rs) h = omega arith

-- `brc_putrecord` where there is room stores the bytes of the board at once.
putrecord-entry :
    (e : ℕ) (buf : List ℕ) (ptr endp bid : ℕ) (list : List BrcRec)
    → has_new e list ≡ true
    → length list ≤ brc_maxnum
    → ptr + (6 + length list * 8) ≤ endp
    → putrecord e buf ptr endp bid list
      ≡ write_at buf ptr (entry_bytes (record { bid = bid; recs = list }))
unfolding putrecord entry_bytes bytes32 bytes16
putrecord-entry e buf ptr endp bid list new fits room =
    let n = has_new-pos e list new in
    let e1 : ltb (ptr + 6) endp ≡ true = ground arith in
    let e2 : leb (ptr + 6 + length list * 8) endp ≡ true = ground arith in
    rw (take-whole brc_maxnum list fits, new, e1, e2)
      (write_at-append buf ptr (bytes32 bid (bytes16 (length list) [])) (encode_recs list []))

-- No record of the board.
abbrev pub Absent : ℕ → List Entry → Type 0
Absent bid [] = Unit {0}
Absent bid (e ∷ es) = ((e.bid == bid) ≡ false) × Absent bid es

find_loop-Absent :
    (fuel ptr bid : ℕ) (es : List Entry)
    → AreStored es
    → Absent bid es
    → length (encode es) ≤ fuel
    → find_loop fuel ptr (encode es) bid ≡ (none, 0)
find_loop-Absent fuel ptr bid [] stored absent h = find_loop-encode_nil fuel ptr bid
find_loop-Absent zero ptr bid (e ∷ es) stored absent h = absurd (omega (arith, length-entry e es))
find_loop-Absent (suc fuel) ptr bid (e ∷ es) stored absent h =
    find_loop-entry fuel ptr bid e es stored
    ∙ rw (absent.0) (
        find_loop-Absent fuel (ptr + (6 + length e.recs * 8)) bid es stored.4 absent.1
          (omega (arith, length-entry e es)))

-- What the two branches of making room have in common: the bytes held are left, and the record fits.
pub record HasRoom (b : BrcBuf) (n : ℕ) (room : BrcBuf) : Type 0 where
  pub wanted : room.size ≡ n
  pub inside : n ≤ length room.buf
  pub same : (sz : ℕ) → sz ≤ length b.buf → read_at room.buf 0 sz ≡ read_at b.buf 0 sz

make_room-HasRoom :
    (fresh : List ℕ) (b : BrcBuf) (n : ℕ)
    → length fresh ≡ brc_blocksize
    → b.size ≤ length b.buf
    → n ≤ b.size + brc_blocksize
    → n ≤ brc_maxsize
    → HasRoom b n (make_room fresh (record b { size = n }))
unfolding make_room enlarge_buf
make_room-HasRoom fresh b n f ok h m = elim (Bool-cases (ltb (length b.buf) n)) [
  | inl small ↦
      let grows : leb brc_maxsize (length b.buf) ≡ false = ground arith in
      rw (small, grows)
        (record {
          wanted = refl;
          inside = omega (arith, length-append b.buf fresh);
          same = λ sz l. read_at-more b.buf fresh sz l;
        })
  | inr large ↦ rw large (record { wanted = refl; inside = ground arith; same = λ sz l. refl })
]

write_at-nil : (buf : List ℕ) (o : ℕ) → write_at buf o [] ≡ buf
write_at-nil buf o =
    list_ext _ _ (length-write_at buf o [])
      (λ i l. ground (arith, at-write_at buf o [] i, length-write_at buf o []))

move_behind-eq :
    (room : BrcBuf) (n sz : ℕ)
    → room.size ≡ n + sz
    → move_behind room n ≡ write_at room.buf n (read_at room.buf 0 sz)
unfolding move_behind
move_behind-eq room n sz h = elim (Bool-cases (ltb n room.size)) [
  | inl more ↦ rw more (ap (λ k. write_at room.buf n (read_at room.buf 0 k)) (omega arith))
  | inr none_ ↦
      let z : sz ≡ 0 = ground arith in
      rw none_ (
        sym (
          ap (λ k. write_at room.buf n (read_at room.buf 0 k)) z
          ∙ ap (write_at room.buf n) (read_at-zero room.buf 0)
          ∙ write_at-nil room.buf n))
]

put_front-encode :
    (e : ℕ) (b room : BrcBuf) (bid : ℕ) (list : List BrcRec) (es : List Entry)
    → b.size ≤ length b.buf
    → region b ≡ encode es
    → has_new e list ≡ true
    → length list ≤ brc_maxnum
    → HasRoom b (6 + length list * 8 + b.size) room
    → let r = put_front e room (6 + length list * 8) bid list in
      (region r ≡ encode (record { bid = bid; recs = list } ∷ es)) × (r.size ≤ length r.buf)
unfolding put_front
put_front-encode e b room bid list es ok held new fits has =
    let entry : Entry = record { bid = bid; recs = list } in
    let bytes = entry_bytes entry in
    let n = 6 + length list * 8 in
    let ln : length bytes ≡ n = length-entry_bytes entry in
    let stored : putrecord e (move_behind room n) 0 n bid list
        ≡ write_at (write_at room.buf (length bytes) (read_at room.buf 0 b.size)) 0 bytes =
      putrecord-entry e (move_behind room n) 0 n bid list new fits (omega arith)
      ∙ ap (λ q. write_at q 0 bytes)
          (move_behind-eq room n b.size has.wanted
            ∙ ap (λ k. write_at room.buf k (read_at room.buf 0 b.size)) (sym ln)) in
    let sized : room.size ≡ length bytes + b.size = omega (arith, has.wanted) in
    (
      ap₂ (λ q k. read_at q 0 k) stored sized
          ∙ read_at-front room.buf bytes b.size (omega (arith, has.inside))
          ∙ ap (λ q. bytes ++ q) (has.same b.size ok ∙ held)
          ∙ sym (encode-entry_bytes entry es),
      omega (
        arith,
        ap length stored,
        has.wanted,
        has.inside,
        length-write_at (write_at room.buf (length bytes) (read_at room.buf 0 b.size)) 0 bytes,
        length-write_at room.buf (length bytes) (read_at room.buf 0 b.size),
      ),
    )

insert_front-encode :
    (fresh : List ℕ) (e : ℕ) (b : BrcBuf) (bid : ℕ) (list : List BrcRec) (es : List Entry)
    → length fresh ≡ brc_blocksize
    → b.size ≤ length b.buf
    → region b ≡ encode es
    → has_new e list ≡ true
    → length list ≤ brc_maxnum
    → b.size + 6 + length list * 8 ≤ brc_maxsize
    → let r = insert_front fresh e b bid list 0 in
      (region r ≡ encode (record { bid = bid; recs = list } ∷ es)) × (r.size ≤ length r.buf)
unfolding insert_front
insert_front-encode fresh e b bid list es f ok held new fits room =
    let n = has_new-pos e list new in
    let some_ : (length list == 0) ≡ false = ground arith in
    let kept : b.size - 0 + (6 + length list * 8) ≡ 6 + length list * 8 + b.size = omega arith in
    rw (some_, kept)
      (put_front-encode e b (make_room fresh (record b { size = 6 + length list * 8 + b.size })) bid
        list es ok held new fits
        (make_room-HasRoom fresh b (6 + length list * 8 + b.size) f ok (omega arith) (omega arith)))

insert_record-front :
    (fresh : List ℕ) (e : ℕ) (b : BrcBuf) (bid : ℕ) (list : List BrcRec) (es : List Entry)
    → region b ≡ encode es
    → AreStored es
    → Absent bid es
    → insert_record fresh e b bid list ≡ insert_front fresh e b bid (trim_old e list) 0
unfolding insert_record insert_found findrecord_in
insert_record-front fresh e b bid list es held stored absent =
    let none_found : findrecord_in (region b) bid ≡ (none, 0) =
      ap (λ q. findrecord_in q bid) held
      ∙ find_loop-Absent (length (encode es)) 0 bid es stored absent (omega arith) in
    ap (insert_found fresh e b bid (trim_old e list)) none_found

-- The records of a board that the buffer does not have, of which some are new, are put in front of
-- those of the other boards, which are left as they are, as long as the buffer may grow; the records
-- older than the expire time are left out, and one block of `brc_enlarge_buf` is enough.
pub insert_record-Absent :
    (fresh : List ℕ) (e : ℕ) (b : BrcBuf) (bid : ℕ) (list : List BrcRec) (es : List Entry)
    → length fresh ≡ brc_blocksize
    → b.size ≤ length b.buf
    → region b ≡ encode es
    → AreStored es
    → Absent bid es
    → has_new e (trim_old e list) ≡ true
    → length (trim_old e list) ≤ brc_maxnum
    → b.size + 6 + length (trim_old e list) * 8 ≤ brc_maxsize
    → let r = insert_record fresh e b bid list in
      (region r ≡ encode (record { bid = bid; recs = trim_old e list } ∷ es))
      × (r.size ≤ length r.buf)
insert_record-Absent fresh e b bid list es f ok held stored absent new fits room =
    rw (insert_record-front fresh e b bid list es held stored absent)
      (insert_front-encode fresh e b bid (trim_old e list) es f ok held new fits room)
