-- ===== src/Aids/Name/Roundtrip.antt =====
-- The name of an article's file gives its number back.
use brs_bbs.Prelude.{
  ℕ, zero, suc, ◌+◌, ◌-◌, ◌*◌, ◌/◌, ◌%◌, ◌^◌, ◌≤◌, ◌<◌, ◌≡◌, refl, ap, ◌∙◌, inl, inr, true, false,
  List, [], ◌∷◌, arith, ltb, ◌==◌, if◌then◌else◌, Bool-cases, take-whole, length,
}
use brs_bbs.Aids.Name.{
  digit_char, numbered, parse_name, second_number, print_decimal, print_int, aidu2fn, strtoul, pack,
  fnlen, fn2aidu,
}
use brs_bbs.Aids.Name.Strtoul.{strtoul-print_int, strtoul-hex}

length-print_decimal : (k n : ℕ) (acc : List ℕ) → length (print_decimal k n acc) ≤ k + length acc
unfolding print_decimal
length-print_decimal zero n acc = omega arith
length-print_decimal (suc k) n acc = elim (Bool-cases (ltb n 10)) [
  | inl last ↦ rw last (omega arith)
  | inr more ↦ rw more (omega (arith, length-print_decimal k (n / 10) (digit_char (n % 10) ∷ acc)))
]

length-print_int : (v : ℕ) (acc : List ℕ) → length (print_int v acc) ≤ 11 + length acc
unfolding print_int
length-print_int v acc = elim (Bool-cases (ltb v (2 ^ 31))) [
  | inl positive ↦ rw positive (omega (arith, length-print_decimal 10 v acc))
  | inr negative ↦ rw negative (omega (arith, length-print_decimal 10 (2 ^ 32 - v) acc))
]

-- What is read of a name whose numbers read as `w` and `v2`.
numbered-packed :
    (type w v2 : ℕ) (cs hex : List ℕ)
    → strtoul 10 cs ≡ (w, b'.' ∷ b'A' ∷ b'.' ∷ hex)
    → strtoul 16 hex ≡ (v2, [])
    → numbered type (b'.' ∷ cs) ≡ type * 2 ^ 44 + w % 2 ^ 32 * 2 ^ 12 + v2 % 2 ^ 12
unfolding numbered pack second_number
numbered-packed type w v2 cs hex read read' = rw (read, read') refl

-- The three parts of a number below 2^45.
packed :
    (aidu type w v2 : ℕ)
    → aidu < 2 ^ 45
    → type ≡ aidu / 2 ^ 44 % 16
    → w % 2 ^ 32 ≡ aidu / 2 ^ 12 % 2 ^ 32
    → v2 ≡ aidu % 2 ^ 12
    → type * 2 ^ 44 + w % 2 ^ 32 * 2 ^ 12 + v2 % 2 ^ 12 ≡ aidu
packed aidu type w v2 h t e e' = omega arith

type_bit : (aidu : ℕ) → aidu < 2 ^ 45 → aidu / 2 ^ 44 % 16 ≤ 1
type_bit aidu h = omega arith

type_m : (t : ℕ) → (t == 0) ≡ true → 0 ≡ t
type_m t m = ground arith

type_g : (t : ℕ) → (t == 0) ≡ false → t ≤ 1 → 1 ≡ t
type_g t g l = ground arith

-- The file name that `aidu2fn` writes for the number of an M or G article fits the 28 characters of a
-- name, and `fn2aidu` reads the number back from it, also where `%d` prints the time as negative.
pub fn2aidu-aidu2fn :
    (aidu : ℕ) → aidu < 2 ^ 45 → (fn2aidu (aidu2fn aidu) ≡ aidu) × (length (aidu2fn aidu) < fnlen)
unfolding fn2aidu aidu2fn
fn2aidu-aidu2fn aidu h =
    let v1 = aidu / 2 ^ 12 % 2 ^ 32 in
    let v2 = aidu % 2 ^ 12 in
    let hex = digit_char (v2 / 256) ∷ digit_char (v2 / 16 % 16) ∷ digit_char (v2 % 16) ∷ [] in
    let tail = b'A' ∷ b'.' ∷ hex in
    let (w, read, same) = strtoul-print_int v1 tail (omega arith) in
    let short : length (aidu2fn aidu) < fnlen = omega (arith, length-print_int v1 (b'.' ∷ tail)) in
    let read' =
      strtoul-hex (v2 / 256) (v2 / 16 % 16) (v2 % 16) (omega arith) (omega arith) (omega arith) in
    let number = v2 / 256 * 256 + v2 / 16 % 16 * 16 + v2 % 16 in
    let whole = ap parse_name (take-whole fnlen (aidu2fn aidu) (omega (arith, short))) in
    let digits = print_int v1 (b'.' ∷ tail) in
    (whole ∙ lettered aidu h w number digits hex read read' same (omega arith), short)
  where
    lettered :
        (aidu : ℕ)
        → aidu < 2 ^ 45
        → (w number : ℕ) (digits hex : List ℕ) → strtoul 10 digits ≡ (w, b'.' ∷ b'A' ∷ b'.' ∷ hex)
        → strtoul 16 hex ≡ (number, [])
        → w % 2 ^ 32 ≡ aidu / 2 ^ 12 % 2 ^ 32
        → number ≡ aidu % 2 ^ 12
        → parse_name ((if aidu / 2 ^ 44 % 16 == 0 then b'M' else b'G') ∷ b'.' ∷ digits) ≡ aidu
    lettered aidu h w number digits hex read read' same same' =
        unfold parse_name in
        elim (Bool-cases (aidu / 2 ^ 44 % 16 == 0)) [
          | inl m ↦ rw m (
              numbered-packed 0 w number digits hex read read'
              ∙ packed aidu 0 w number h (type_m (aidu / 2 ^ 44 % 16) m) same same')
          | inr g ↦ rw g (
              numbered-packed 1 w number digits hex read read'
              ∙ packed aidu 1 w number h (type_g (aidu / 2 ^ 44 % 16) g (type_bit aidu h)) same
                  same')
        ]
