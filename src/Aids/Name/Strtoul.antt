-- ===== src/Aids/Name/Strtoul.antt =====
-- `strtoul` reads what `%d` and `%03X` print.
use brs_bbs.Prelude.{
  ℕ, zero, suc, ◌+◌, ◌-◌, ◌*◌, ◌/◌, ◌%◌, ◌^◌, ◌≤◌, ◌<◌, ◌≡◌, refl, ap, ◌∙◌, inl, inr, true, false,
  ◌||◌, some, List, [], ◌∷◌, arith, ltb, ◌==◌, if◌then◌else◌, Bool-cases, within,
}
use brs_bbs.Aids.Name.{
  digit_char, digit_value, print_decimal, print_int, read_digits, strtoul, signed_part,
  starts_digit, skip_0x, unsigned_part, saturate, negated,
}

digit_value-digit_char : (d : ℕ) → d < 16 → digit_value (digit_char d) ≡ some d
digit_value-digit_char d h = ground arith

-- The numbers of at most so many digits.
abbrev bound : ℕ → ℕ
bound zero = 1
bound (suc k) = 10 * bound k

read_digits-digit_char :
    (base v d : ℕ) (cs : List ℕ)
    → d < 16
    → d < base
    → read_digits base v (digit_char d ∷ cs) ≡ read_digits base (v * base + d) cs
unfolding read_digits
read_digits-digit_char base v d cs h l =
    let small : ltb d base ≡ true = ground (arith, l) in
    rw (read_digits, digit_value-digit_char d h, small) refl

read_digits-print_decimal :
    (k n : ℕ) (acc : List ℕ)
    → n < bound k
    → read_digits 10 0 (print_decimal k n acc) ≡ read_digits 10 n acc
unfolding print_decimal
read_digits-print_decimal zero n acc h =
    let none_left : 0 ≡ n = omega (arith, h) in ap (λ v. read_digits 10 v acc) none_left
read_digits-print_decimal (suc k) n acc h = elim (Bool-cases (ltb n 10)) [
  | inl last ↦ rw last (
      read_digits-digit_char 10 0 (n % 10) acc (omega arith) (omega arith)
      ∙ ap (λ v. read_digits 10 v acc) (one_digit last))
  | inr more ↦ rw more (
      read_digits-print_decimal k (n / 10) (digit_char (n % 10) ∷ acc) (omega (arith, h))
      ∙ read_digits-digit_char 10 (n / 10) (n % 10) acc (omega arith) (omega arith)
      ∙ ap (λ v. read_digits 10 v acc) (omega arith))
]
  where
    one_digit : ltb n 10 ≡ true → 0 * 10 + n % 10 ≡ n
    one_digit last = ground (arith, last)

starts_digit-any :
    (base d : ℕ) (cs : List ℕ) → d < 16 → d < base → starts_digit base (digit_char d ∷ cs) ≡ true
starts_digit-any base d cs h l =
    let small : ltb d base ≡ true = ground (arith, l) in
    rw (starts_digit, digit_value-digit_char d h) small

starts_digit-digit_char : (n : ℕ) (cs : List ℕ) → starts_digit 10 (digit_char (n % 10) ∷ cs) ≡ true
starts_digit-digit_char n cs = starts_digit-any 10 (n % 10) cs (omega arith) (omega arith)

starts_digit-print_decimal :
    (k n : ℕ) (acc : List ℕ)
    → starts_digit 10 acc ≡ true
    → starts_digit 10 (print_decimal k n acc) ≡ true
unfolding print_decimal
starts_digit-print_decimal zero n acc h = h
starts_digit-print_decimal (suc k) n acc h = elim (Bool-cases (ltb n 10)) [
  | inl last ↦ rw last (starts_digit-digit_char n acc)
  | inr more ↦ rw more (starts_digit-print_decimal k (n / 10) _ (starts_digit-digit_char n acc))
]

prints_digit : (k n : ℕ) (acc : List ℕ) → starts_digit 10 (print_decimal (suc k) n acc) ≡ true
unfolding print_decimal
prints_digit k n acc = elim (Bool-cases (ltb n 10)) [
  | inl last ↦ rw last (starts_digit-digit_char n acc)
  | inr more ↦ rw more (starts_digit-print_decimal k (n / 10) _ (starts_digit-digit_char n acc))
]

is_digit : (c : ℕ) (cs : List ℕ) → starts_digit 10 (c ∷ cs) ≡ true → (b'0' ≤ c) × (c ≤ b'9')
is_digit c cs h = (ground (arith, h), ground (arith, h))

skip_0x-decimal : (s : List ℕ) → skip_0x 10 s ≡ s
skip_0x-decimal [] = refl
skip_0x-decimal (c ∷ []) = refl
skip_0x-decimal (c ∷ (x ∷ cs)) = refl

unsigned_part-digits :
    (base : ℕ) (value : ℕ → ℕ) (all s : List ℕ)
    → skip_0x base s ≡ s
    → starts_digit base s ≡ true
    → unsigned_part base value all s ≡ (value (read_digits base 0 s).0, (read_digits base 0 s).1)
unsigned_part-digits base value all s skip h =
    ap
      (λ t.
        if starts_digit base t
        then (value (read_digits base 0 t).0, (read_digits base 0 t).1)
        else (0, all))
      skip
    ∙ rw h refl

strtoul-digits :
    (s : List ℕ)
    → starts_digit 10 s ≡ true
    → strtoul 10 s ≡ (saturate (read_digits 10 0 s).0, (read_digits 10 0 s).1)
unfolding strtoul signed_part
strtoul-digits [] h = absurd (ground (arith, h))
strtoul-digits (c ∷ cs) h =
    let (l, u) = is_digit c cs h in
    let no_space : ((c == 32) || within 9 13 c) ≡ false = ground (arith, l, u) in
    let no_minus : (c == b'-') ≡ false = ground (arith, l, u) in
    let no_plus : (c == b'+') ≡ false = ground (arith, l, u) in
    rw (no_space, no_minus, no_plus)
      (unsigned_part-digits 10 saturate (c ∷ cs) (c ∷ cs) (skip_0x-decimal (c ∷ cs)) h)

-- What `strtoul` makes of `%d`: the same 32 bits.
pub strtoul-print_int :
    (v1 : ℕ) (cs : List ℕ)
    → v1 < 2 ^ 32
    → (w : ℕ) × (strtoul 10 (print_int v1 (b'.' ∷ cs)) ≡ (w, b'.' ∷ cs)) × (w % 2 ^ 32 ≡ v1)
unfolding print_int read_digits
strtoul-print_int v1 cs h = elim (Bool-cases (ltb v1 (2 ^ 31))) [
  | inl positive ↦
      let e = read_digits-print_decimal 10 v1 (b'.' ∷ cs) (omega (arith, h)) in
      (
        saturate v1,
        rw positive (
            strtoul-digits (print_decimal 10 v1 (b'.' ∷ cs)) (prints_digit 9 v1 (b'.' ∷ cs))
            ∙ ap (λ r. (saturate r.0, r.1)) e),
        ground (arith, h),
      )
  | inr negative ↦
      let m = 2 ^ 32 - v1 in
      let e = read_digits-print_decimal 10 m (b'.' ∷ cs) (omega arith) in
      (
        negated m,
        rw negative (
            strtoul-minus (print_decimal 10 m (b'.' ∷ cs)) (prints_digit 9 m (b'.' ∷ cs))
            ∙ ap (λ r. (negated r.0, r.1)) e),
        ground (arith, h, negative),
      )
]
  where
    strtoul-minus :
        (s : List ℕ)
        → starts_digit 10 s ≡ true
        → strtoul 10 (b'-' ∷ s) ≡ (negated (read_digits 10 0 s).0, (read_digits 10 0 s).1)
    strtoul-minus s start =
        unfold strtoul signed_part in
        unsigned_part-digits 10 negated (b'-' ∷ s) s (skip_0x-decimal s) start

skip_0x-other :
    (c y : ℕ) (cs : List ℕ)
    → (y == b'x') ≡ false
    → (y == b'X') ≡ false
    → skip_0x 16 (c ∷ (y ∷ cs)) ≡ c ∷ y ∷ cs
skip_0x-other c y cs no_x no_X = elim (Bool-cases (c == b'0')) [
  | inl digit_0 ↦ rw (skip_0x, digit_0, no_x, no_X) refl
  | inr other ↦ rw (skip_0x, other) refl
]

-- Three digits of base 16.
pub strtoul-hex :
    (x y z : ℕ)
    → x < 16
    → y < 16
    → z < 16
    → strtoul 16 (digit_char x ∷ digit_char y ∷ digit_char z ∷ []) ≡ (x * 256 + y * 16 + z, [])
unfolding strtoul signed_part
strtoul-hex x y z hx hy hz =
    let c = digit_char x in
    let no_space : ((c == 32) || within 9 13 c) ≡ false = ground (arith, hx) in
    let no_minus : (c == b'-') ≡ false = ground (arith, hx) in
    let no_plus : (c == b'+') ≡ false = ground (arith, hx) in
    let all = c ∷ digit_char y ∷ digit_char z ∷ [] in
    let read =
      read_digits-digit_char 16 0 x (digit_char y ∷ digit_char z ∷ []) hx hx
      ∙ read_digits-digit_char 16 (0 * 16 + x) y (digit_char z ∷ []) hy hy
      ∙ read_digits-digit_char 16 ((0 * 16 + x) * 16 + y) z [] hz hz
      ∙ ended (((0 * 16 + x) * 16 + y) * 16 + z) in
    let value : saturate (((0 * 16 + x) * 16 + y) * 16 + z) ≡ x * 256 + y * 16 + z =
      ground (arith, hx, hy, hz) in
    rw (no_space, no_minus, no_plus)
      (unsigned_part-digits 16 saturate all all no_prefix
          (starts_digit-any 16 x (digit_char y ∷ digit_char z ∷ []) hx hx)
        ∙ ap (λ r. (saturate r.0, r.1)) read
        ∙ ap (λ v. (v, [])) value)
  where
    ended : (v : ℕ) → read_digits 16 v [] ≡ (v, [])
    ended v = unfold read_digits in refl

    no_prefix :
        skip_0x 16 (digit_char x ∷ digit_char y ∷ digit_char z ∷ [])
        ≡ digit_char x ∷ digit_char y ∷ digit_char z ∷ []
    no_prefix =
        let no_x : (digit_char y == b'x') ≡ false = ground (arith, hy) in
        let no_X : (digit_char y == b'X') ≡ false = ground (arith, hy) in
        skip_0x-other (digit_char x) (digit_char y) (digit_char z ∷ []) no_x no_X
