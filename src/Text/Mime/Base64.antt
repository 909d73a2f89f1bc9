-- ===== src/Text/Mime/Base64.antt =====
-- `mmdecode` of base64, against the encoding of RFC 4648.
use brs_bbs.Prelude.{
  ℕ, ◌+◌, ◌-◌, ◌*◌, ◌/◌, ◌%◌, ◌^◌, ◌≤◌, ◌<◌, ◌≡◌, refl, ap, ◌∙◌, true, false, some, List, [], ◌∷◌,
  ◌++◌, arith, ltb, leb, ◌==◌, if◌then◌else◌,
}
use brs_bbs.Prelude.Bytes.{AreBytes}
use brs_bbs.Text.Mime.{base64_code, decode_base64, mmdecode}

-- The alphabet of RFC 4648, and its encoding: groups of three bytes, and `=` at the end.
pub digit : ℕ → ℕ
digit n =
    if ltb n 26
    then b'A' + n
    else if ltb n 52
    then b'a' + (n - 26)
    else if ltb n 62
    then b'0' + (n - 52)
    else if n == 62
    then b'+'
    else b'/'

pub base64 : List ℕ → List ℕ
base64 [] = []
base64 (a ∷ []) = digit (a / 4) ∷ digit (a % 4 * 16) ∷ b'=' ∷ b'=' ∷ []
base64 (a ∷ b ∷ []) = digit (a / 4) ∷ digit (a % 4 * 16 + b / 16) ∷ digit (b % 16 * 4) ∷ b'=' ∷ []
base64 (a ∷ b ∷ c ∷ cs) =
    digit (a / 4)
    ∷ digit (a % 4 * 16 + b / 16)
    ∷ digit (b % 16 * 4 + c / 64)
    ∷ digit (c % 64)
    ∷ base64 cs

base64_code-digit : (n : ℕ) → n < 64 → base64_code (digit n) ≡ some n
unfolding base64_code digit
base64_code-digit n h = ground arith

digit-ne_end : (n : ℕ) → n < 64 → (digit n == b'?') ≡ false
unfolding digit
digit-ne_end n h = ground arith

abbrev next_pattern : ℕ → ℕ → ℕ
next_pattern p n = (p * 64 + n) % 2 ^ 32

-- One digit: with fewer than two bits waiting it only adds six; else a byte is stored.
decode_base64-short :
    (p n : ℕ) (cs : List ℕ)
    → n < 64
    → decode_base64 p 0 (digit n ∷ cs) ≡ decode_base64 (next_pattern p n) 6 cs
unfolding decode_base64
decode_base64-short p n cs h =
    rw (digit-ne_end n h, base64_code-digit n h, base64_code-digit n h) refl

decode_base64-byte :
    (p bits n : ℕ) (cs : List ℕ)
    → n < 64
    → 2 ≤ bits
    → decode_base64 p bits (digit n ∷ cs)
      ≡ next_pattern p n / 2 ^ (bits + 6 - 8) % 256
        ∷ decode_base64 (next_pattern p n) (bits + 6 - 8) cs
unfolding decode_base64
decode_base64-byte p bits n cs h b =
    let e : leb 8 (bits + 6) ≡ true = ground arith in
    rw (digit-ne_end n h, base64_code-digit n h, base64_code-digit n h, e) refl

-- The bits of the bytes in the pattern, whatever older bits it holds.
byte_one :
    (p a b : ℕ)
    → a < 256
    → b < 16
    → next_pattern (next_pattern p (a / 4)) (a % 4 * 16 + b) / 2 ^ 4 % 256 ≡ a
byte_one p a b ha hb = omega arith

byte_two :
    (p a b c : ℕ)
    → b < 256
    → c < 4
    → a < 4
    → next_pattern (next_pattern p (a * 16 + b / 16)) (b % 16 * 4 + c) / 2 ^ 2 % 256 ≡ b
byte_two p a b c hb hc ha = omega arith

byte_three :
    (p b c : ℕ)
    → b < 16
    → c < 256
    → next_pattern (next_pattern p (b * 4 + c / 64)) (c % 64) / 2 ^ 0 % 256 ≡ c
byte_three p b c hb hc = omega arith

decode_base64-pad :
    (p bits : ℕ) (cs : List ℕ) → decode_base64 p bits (b'=' ∷ cs) ≡ decode_base64 p bits cs
unfolding decode_base64 base64_code
decode_base64-pad p bits cs = refl

decode_base64-end : (p bits : ℕ) (rest : List ℕ) → decode_base64 p bits (b'?' ∷ rest) ≡ []
unfolding decode_base64
decode_base64-end p bits rest = refl

-- The first two digits give the first byte.
two_digits :
    (p a b : ℕ) (cs : List ℕ)
    → a < 256
    → b < 16
    → decode_base64 p 0 (digit (a / 4) ∷ digit (a % 4 * 16 + b) ∷ cs)
      ≡ a ∷ decode_base64 (next_pattern (next_pattern p (a / 4)) (a % 4 * 16 + b)) 4 cs
two_digits p a b cs ha hb =
    decode_base64-short p (a / 4) _ (omega arith)
    ∙ decode_base64-byte (next_pattern p (a / 4)) 6 (a % 4 * 16 + b) cs (omega arith) (omega arith)
    ∙ ap (λ x. x ∷ decode_base64 (next_pattern (next_pattern p (a / 4)) (a % 4 * 16 + b)) 4 cs)
        (byte_one p a b ha hb)

-- The third digit gives the second byte, where the pattern ends in the second digit.
third_digit :
    (p a b c : ℕ) (cs : List ℕ)
    → a < 4
    → b < 256
    → c < 4
    → let q = next_pattern p (a * 16 + b / 16) in
      decode_base64 q 4 (digit (b % 16 * 4 + c) ∷ cs)
      ≡ b ∷ decode_base64 (next_pattern q (b % 16 * 4 + c)) 2 cs
third_digit p a b c cs ha hb hc =
    let q = next_pattern p (a * 16 + b / 16) in
    decode_base64-byte q 4 (b % 16 * 4 + c) cs (omega arith) (omega arith)
    ∙ ap (λ x. x ∷ decode_base64 (next_pattern q (b % 16 * 4 + c)) 2 cs) (byte_two p a b c hb hc ha)

fourth_digit :
    (p b c : ℕ) (cs : List ℕ)
    → b < 16
    → c < 256
    → let q = next_pattern p (b * 4 + c / 64) in
      decode_base64 q 2 (digit (c % 64) ∷ cs) ≡ c ∷ decode_base64 (next_pattern q (c % 64)) 0 cs
fourth_digit p b c cs hb hc =
    let q = next_pattern p (b * 4 + c / 64) in
    decode_base64-byte q 2 (c % 64) cs (omega arith) (omega arith)
    ∙ ap (λ x. x ∷ decode_base64 (next_pattern q (c % 64)) 0 cs) (byte_three p b c hb hc)

decode_base64-base64 :
    (s : List ℕ) (p : ℕ) (rest : List ℕ)
    → AreBytes s
    → decode_base64 p 0 (base64 s ++ (b'?' ∷ rest)) ≡ s
unfolding base64
decode_base64-base64 [] p rest w = decode_base64-end p 0 rest
decode_base64-base64 (a ∷ []) p rest (wa, w) =
    let e : a % 4 * 16 ≡ a % 4 * 16 + 0 = omega arith in
    let tail_ = b'=' ∷ b'=' ∷ b'?' ∷ rest in
    ap (λ n. decode_base64 p 0 (digit (a / 4) ∷ digit n ∷ tail_)) e
    ∙ two_digits p a 0 tail_ wa (omega arith)
    ∙ ap (λ r. a ∷ r)
        (decode_base64-pad _ 4 (b'=' ∷ b'?' ∷ rest)
          ∙ decode_base64-pad _ 4 (b'?' ∷ rest)
          ∙ decode_base64-end _ 4 rest)
decode_base64-base64 (a ∷ b ∷ []) p rest (wa, (wb, w)) =
    let e : b % 16 * 4 ≡ b % 16 * 4 + 0 = omega arith in
    let q = next_pattern (next_pattern p (a / 4)) (a % 4 * 16 + b / 16) in
    two_digits p a (b / 16) _ wa (omega arith)
    ∙ ap (λ r. a ∷ r)
        (ap (λ n. decode_base64 q 4 (digit n ∷ b'=' ∷ b'?' ∷ rest)) e
          ∙ third_digit (next_pattern p (a / 4)) (a % 4) b 0 _ (omega arith) wb (omega arith)
          ∙ ap (λ r. b ∷ r) (decode_base64-pad _ 2 (b'?' ∷ rest) ∙ decode_base64-end _ 2 rest))
decode_base64-base64 (a ∷ b ∷ c ∷ cs) p rest (wa, (wb, (wc, w))) =
    two_digits p a (b / 16) _ wa (omega arith)
    ∙ ap (λ r. a ∷ r)
        (third_digit (next_pattern p (a / 4)) (a % 4) b (c / 64) _ (omega arith) wb (omega arith)
          ∙ ap (λ r. b ∷ r)
              (fourth_digit _ (b % 16) c _ (omega arith) wc
                ∙ ap (λ r. c ∷ r) (decode_base64-base64 cs _ rest w)))

-- `mmdecode` decodes the RFC 4648 encoding of any bytes, padding included, up to the `?` that ends
-- the word; the 32 bits of `pattern` are enough.
pub mmdecode-base64 :
    (s rest : List ℕ) → AreBytes s → mmdecode (base64 s ++ (b'?' ∷ rest)) b'B' ≡ some s
unfolding mmdecode
mmdecode-base64 s rest w = ap some (decode_base64-base64 s 0 rest w)
