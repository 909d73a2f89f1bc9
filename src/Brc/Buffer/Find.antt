-- ===== src/Brc/Buffer/Find.antt =====
-- `brc_find_record` looks a board up.
use brs_bbs.Prelude.{
  ℕ, zero, suc, ◌+◌, ◌*◌, ◌^◌, ◌≤◌, ◌<◌, ◌≡◌, refl, sym, ap, ap₂, ◌∙◌, inl, inr, true, false, none,
  some, List, [], ◌∷◌, ◌++◌, append_assoc, arith, ltb, ◌==◌, if◌then◌else◌, Bool-cases, length,
  length-append, drop,
}
use brs_bbs.Brc.{BrcRec}
use brs_bbs.Brc.Buffer.{
  records_found, word16, word32, find_loop, findrecord_in, records_at, find_record, bytes32,
  bytes16, encode_recs,
}

-- What the buffer stands for: the records of each board.
pub record Entry : Type 0 where
  pub bid : ℕ
  pub recs : List BrcRec

unfoldable pub encode : List Entry → List ℕ
encode [] = []
encode (e ∷ es) = bytes32 e.bid (bytes16 (length e.recs) (encode_recs e.recs (encode es)))

pub lookup : ℕ → List Entry → List BrcRec
lookup bid [] = []
lookup bid (e ∷ es) = let rest = lookup bid es in if e.bid == bid then e.recs else rest

-- Each board has a record, and the numbers fit their words.
abbrev pub AreWords : List BrcRec → Type 0
AreWords [] = Unit {0}
AreWords (r ∷ rs) = (r.create < 2 ^ 32) × (r.modified < 2 ^ 32) × AreWords rs

abbrev pub AreStored : List Entry → Type 0
AreStored [] = Unit {0}
AreStored (e ∷ es) =
    (e.bid < 2 ^ 32)
    × (0 < length e.recs)
    × (length e.recs < 2 ^ 16)
    × AreWords e.recs
    × AreStored es

word32-bytes32 : (n : ℕ) (rest : List ℕ) → n < 2 ^ 32 → word32 (bytes32 n rest) ≡ n
unfolding bytes32
word32-bytes32 n rest h = omega arith

word16-bytes16 : (n : ℕ) (rest : List ℕ) → n < 2 ^ 16 → word16 (bytes16 n rest) ≡ n
unfolding bytes16
word16-bytes16 n rest h = omega arith

records_at-encode_recs :
    (recs : List BrcRec) (rest : List ℕ)
    → AreWords recs
    → records_at (length recs) (encode_recs recs rest) ≡ recs
unfolding records_at encode_recs bytes32
records_at-encode_recs [] rest w = refl
records_at-encode_recs (r ∷ rs) rest (wc, wm, w) =
    ap₂ (λ c rs'. c ∷ rs')
      (ap₂ (λ c m. record { create = c; modified = m }) (word32-bytes32 r.create [] wc)
        (word32-bytes32 r.modified [] wm))
      (records_at-encode_recs rs rest w)

length-encode_recs :
    (recs : List BrcRec) (rest : List ℕ)
    → length (encode_recs recs rest) ≡ length recs * 8 + length rest
unfolding encode_recs bytes32
length-encode_recs [] rest = omega arith
length-encode_recs (r ∷ rs) rest = omega (arith, length-encode_recs rs rest)

drop-encode_recs :
    (recs : List BrcRec) (rest : List ℕ) → drop (length recs * 8) (encode_recs recs rest) ≡ rest
unfolding encode_recs bytes32
drop-encode_recs [] rest = refl
drop-encode_recs (r ∷ rs) rest =
    let e : suc (length rs) * 8 ≡ suc (suc (suc (suc (suc (suc (suc (suc (length rs * 8)))))))) =
      omega arith in
    ap (λ k. drop k (encode_recs (r ∷ rs) rest)) e ∙ drop-encode_recs rs rest

number :
    (e : Entry) (es : List Entry)
    → length e.recs < 2 ^ 16
    → word16 (drop 4 (encode (e ∷ es))) ≡ length e.recs
unfolding encode bytes32 bytes16
number e es h = word16-bytes16 (length e.recs) (encode_recs e.recs (encode es)) h

pub length-entry :
    (e : Entry) (es : List Entry)
    → length (encode (e ∷ es)) ≡ 6 + length e.recs * 8 + length (encode es)
unfolding encode bytes32 bytes16
length-entry e es = omega (arith, length-encode_recs e.recs (encode es))

drop-entry :
    (e : Entry) (es : List Entry) → drop (6 + length e.recs * 8) (encode (e ∷ es)) ≡ encode es
unfolding encode bytes32 bytes16
drop-entry e es =
    let k : 6 + length e.recs * 8 ≡ suc (suc (suc (suc (suc (suc (length e.recs * 8)))))) =
      omega arith in
    ap (λ j. drop j (encode (e ∷ es))) k ∙ drop-encode_recs e.recs (encode es)

-- One board in front: it is found, or stepped over.
pub find_loop-entry :
    (fuel ptr bid : ℕ) (e : Entry) (es : List Entry)
    → AreStored (e ∷ es)
    → find_loop (suc fuel) ptr (encode (e ∷ es)) bid ≡ (
        if e.bid == bid
        then (some ptr, length e.recs)
        else find_loop fuel (ptr + (6 + length e.recs * 8)) (encode es) bid)
unfolding find_loop encode
find_loop-entry fuel ptr bid e es (wb, some_, wn, w, stored) =
    let n = length e.recs in
    let rest = encode_recs e.recs (encode es) in
    let bytes = bytes32 e.bid (bytes16 n rest) in
    let num : word16 (drop 4 bytes) ≡ n = number e es wn in
    let lb : length bytes ≡ 6 + n * 8 + length (encode es) = length-entry e es in
    let more : ltb 6 (length bytes) ≡ true = ground arith in
    let whole : ltb (length bytes) (6 + n * 8) ≡ false = ground arith in
    rw (more, num, whole, word32-bytes32 e.bid (bytes16 n rest) wb, drop-entry e es) refl

drop-append : (pre xs : List ℕ) (k : ℕ) → drop (length pre + k) (pre ++ xs) ≡ drop k xs
drop-append [] xs k = ap (λ j. drop j xs) (omega arith)
drop-append (x ∷ pre) xs k =
    let e : suc (length pre) + k ≡ suc (length pre + k) = omega arith in
    ap (λ j. drop j (x ∷ (pre ++ xs))) e ∙ drop-append pre xs k

encode_recs-append :
    (recs : List BrcRec) (rest : List ℕ) → encode_recs recs rest ≡ encode_recs recs [] ++ rest
unfolding encode_recs bytes32
encode_recs-append [] rest = refl
encode_recs-append (r ∷ rs) rest =
    ap (λ q. bytes32 r.create (bytes32 r.modified q)) (encode_recs-append rs rest)

-- the bytes of one board
unfoldable pub entry_bytes : Entry → List ℕ
entry_bytes e = bytes32 e.bid (bytes16 (length e.recs) (encode_recs e.recs []))

pub encode-entry_bytes :
    (e : Entry) (es : List Entry) → encode (e ∷ es) ≡ entry_bytes e ++ encode es
unfolding encode entry_bytes bytes32 bytes16
encode-entry_bytes e es =
    ap (λ q. bytes32 e.bid (bytes16 (length e.recs) q)) (encode_recs-append e.recs (encode es))

pub length-entry_bytes : (e : Entry) → length (entry_bytes e) ≡ 6 + length e.recs * 8
unfolding entry_bytes bytes32 bytes16
length-entry_bytes e = omega (arith, length-encode_recs e.recs [])

records_at-head :
    (e : Entry) (es : List Entry)
    → AreWords e.recs
    → records_at (length e.recs) (drop 6 (encode (e ∷ es))) ≡ e.recs
unfolding encode bytes32 bytes16
records_at-head e es w = records_at-encode_recs e.recs (encode es) w

pub find_loop-encode_nil : (fuel ptr bid : ℕ) → find_loop fuel ptr (encode []) bid ≡ (none, 0)
unfolding find_loop encode
find_loop-encode_nil zero ptr bid = refl
find_loop-encode_nil (suc fuel) ptr bid = refl

find_loop-nil :
    (fuel bid : ℕ) (pre : List ℕ)
    → records_found (pre ++ encode []) (find_loop fuel (length pre) (encode []) bid) ≡ []
unfolding find_loop encode records_found
find_loop-nil zero bid pre = refl
find_loop-nil (suc fuel) bid pre = refl

records_at-entry :
    (pre : List ℕ) (e : Entry) (es : List Entry)
    → AreWords e.recs
    → records_at (length e.recs) (drop (length pre + 6) (pre ++ encode (e ∷ es))) ≡ e.recs
records_at-entry pre e es w =
    ap (records_at (length e.recs)) (drop-append pre (encode (e ∷ es)) 6) ∙ records_at-head e es w

find_loop-encode :
    (fuel bid : ℕ) (es : List Entry) (pre : List ℕ)
    → length (encode es) ≤ fuel
    → AreStored es
    → records_found (pre ++ encode es) (find_loop fuel (length pre) (encode es) bid) ≡ lookup bid es
unfolding lookup records_found
find_loop-encode fuel bid [] pre h stored = find_loop-nil fuel bid pre
find_loop-encode zero bid (e ∷ es) pre h stored = absurd (omega (arith, length-entry e es))
find_loop-encode (suc fuel) bid (e ∷ es) pre h stored =
    ap (records_found (pre ++ encode (e ∷ es))) (find_loop-entry fuel (length pre) bid e es stored)
    ∙ elim (Bool-cases (e.bid == bid)) [
      | inl m ↦ rw m (records_at-entry pre e es stored.3)
      | inr n ↦ rw n (
          ap₂ (λ region ptr. records_found region (find_loop fuel ptr (encode es) bid))
            (ap (λ q. pre ++ q) (encode-entry_bytes e es)
              ∙ sym (append_assoc pre (entry_bytes e) (encode es)))
            (omega (arith, length-append pre (entry_bytes e), length-entry_bytes e))
          ∙ find_loop-encode fuel bid es (pre ++ entry_bytes e) (omega (arith, length-entry e es))
              stored.4)
    ]

-- In a buffer that holds the records of some boards one after the other, `brc_find_record` returns
-- those of the first entry of the board, none if there is no entry: its fuel is enough, and no other
-- board's bytes are read for it.
pub find_record-encode :
    (es : List Entry) (bid : ℕ) → AreStored es → find_record (encode es) bid ≡ lookup bid es
unfolding find_record findrecord_in
find_record-encode es bid stored =
    find_loop-encode (length (encode es)) bid es [] (omega arith) stored
