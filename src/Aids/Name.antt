-- ===== src/Aids/Name.antt =====
-- The number of an article from the name of its file and back, `fn2aidu` and `aidu2fn`.
pub mod Roundtrip
pub mod Strtoul
use brs_bbs.Prelude.{
  ℕ, zero, suc, ◌+◌, ◌-◌, ◌*◌, ◌/◌, ◌%◌, ◌^◌, ◌≤◌, ◌<◌, min, ◌≡◌, refl, sym, ap, ap₂, ◌∙◌, subst,
  ◌≢◌, ◌↔◌, ◌⊎◌, inl, inr, Bool, true, false, not, ◌&&◌, ◌||◌, Option, none, some, List, [], ◌∷◌,
  ◌++◌, append-nil, append_assoc, map, flatten, arith, ltb, leb, ◌==◌, if◌then◌else◌, ltb→lt,
  lt→ltb, leb→le, ==_iff, tests, Bool-cases, Option-cases, List-cases, ◌>>=◌, take-whole,
  drop-whole, take-append_le, take-append_past, drop-append_past, drop-drop, take-take,
  drop-append_le, drop-take, within, length, get_elem?, set, length-append, length-set, take, drop,
  replicate, length-take, length-drop, take-append-drop, length-replicate,
}

-- A digit of `%d` or `%X`.
abbrev pub digit_char : ℕ → ℕ
digit_char d = if ltb d 10 then b'0' + d else b'A' + (d - 10)

abbrev pub digit_value : ℕ → Option ℕ
digit_value c =
    if within b'0' b'9' c
    then some (c - b'0')
    else if within b'A' b'Z' c
    then some (c - b'A' + 10)
    else if within b'a' b'z' c
    then some (c - b'a' + 10)
    else none

-- The digits of a number in front of `acc`, for at most so many digits.
unfoldable pub print_decimal : ℕ → ℕ → List ℕ → List ℕ
print_decimal zero n acc = acc
print_decimal (suc k) n acc =
    let more = print_decimal k (n / 10) (digit_char (n % 10) ∷ acc) in
    if ltb n 10 then digit_char (n % 10) ∷ acc else more

-- `%d` of an `unsigned int` in front of `acc`: it is read as signed.
unfoldable pub print_int : ℕ → List ℕ → List ℕ
print_int n acc =
    if ltb n (2 ^ 31) then print_decimal 10 n acc else b'-' ∷ print_decimal 10 (2 ^ 32 - n) acc

-- `aidu2fn`; `%03X` of twelve bits has three digits.
unfoldable pub aidu2fn : ℕ → List ℕ
aidu2fn aidu =
    let type = aidu / 2 ^ 44 % 16 in
    let v1 = aidu / 2 ^ 12 % 2 ^ 32 in
    let v2 = aidu % 2 ^ 12 in
    (if type == 0 then b'M' else b'G')
    ∷ b'.'
    ∷ print_int v1 (
        b'.'
        ∷ b'A'
        ∷ b'.'
        ∷ digit_char (v2 / 256)
        ∷ digit_char (v2 / 16 % 16)
        ∷ digit_char (v2 % 16)
        ∷ [])

-- The digits of `strtoul`, and what is behind them.
unfoldable pub read_digits : ℕ → ℕ → List ℕ → ℕ × List ℕ
read_digits base v [] = (v, [])
read_digits base v (c ∷ cs) = elim (digit_value c) [
  | none ↦ (v, c ∷ cs)
  | some d ↦
      let rest = read_digits base (v * base + d) cs in if ltb d base then rest else (v, c ∷ cs)
]

abbrev pub starts_digit : ℕ → List ℕ → Bool
starts_digit base [] = false
starts_digit base (c ∷ cs) = elim (digit_value c) [ none ↦ false | some d ↦ ltb d base ]

-- The prefix of base 16.
abbrev pub skip_0x : ℕ → List ℕ → List ℕ
skip_0x base (c ∷ (x ∷ cs)) =
    if (base == 16) && (c == b'0') && ((x == b'x') || (x == b'X')) && starts_digit base cs
    then cs
    else c ∷ x ∷ cs
skip_0x base (c ∷ []) = c ∷ []
skip_0x base [] = []

-- `ULONG_MAX` for what 64 bits do not hold.
abbrev pub saturate : ℕ → ℕ
saturate v = if ltb v (2 ^ 64) then v else 2 ^ 64 - 1

abbrev pub negated : ℕ → ℕ
negated v = if ltb v (2 ^ 64) then (2 ^ 64 - v) % 2 ^ 64 else 2 ^ 64 - 1

abbrev pub skip_spaces : List ℕ → List ℕ
skip_spaces [] = []
skip_spaces (c ∷ cs) =
    let rest = skip_spaces cs in if (c == 32) || within 9 13 c then rest else c ∷ cs

-- `strtoul` behind the sign, from the string `all`, which is left whole if there is no digit.
abbrev pub unsigned_part : ℕ → (ℕ → ℕ) → List ℕ → List ℕ → ℕ × List ℕ
unsigned_part base value all cs =
    let s = skip_0x base cs in
    let r = read_digits base 0 s in if starts_digit base s then (value r.0, r.1) else (0, all)

unfoldable pub signed_part : ℕ → List ℕ → List ℕ → ℕ × List ℕ
signed_part base all [] = (0, all)
signed_part base all (c ∷ cs) =
    if c == b'-'
    then unsigned_part base negated all cs
    else if c == b'+'
    then unsigned_part base saturate all cs
    else unsigned_part base saturate all (c ∷ cs)

unfoldable pub strtoul : ℕ → List ℕ → ℕ × List ℕ
strtoul base s = signed_part base s (skip_spaces s)

-- `fn2aidu` behind the A: the optional second number.
unfoldable pub second_number : List ℕ → ℕ
second_number [] = 0
second_number (d ∷ cs) = let v2 = (strtoul 16 cs).0 in if d == b'.' then v2 else 0

-- Behind the first number, with the bits put together.
unfoldable pub pack : ℕ → ℕ → List ℕ → ℕ
pack type v1 (b ∷ (c ∷ rest)) =
    if (b == b'.') && (c == b'A')
    then type * 2 ^ 44 + v1 % 2 ^ 32 * 2 ^ 12 + second_number rest % 2 ^ 12
    else 0
pack type v1 (b ∷ []) = 0
pack type v1 [] = 0

-- Behind the letter.
unfoldable pub numbered : ℕ → List ℕ → ℕ
numbered type [] = 0
numbered type (d ∷ cs) =
    let r = strtoul 10 cs in let packed = pack type r.0 r.1 in if d == b'.' then packed else 0

-- The `switch` on the letter.
unfoldable pub parse_name : List ℕ → ℕ
parse_name [] = 0
parse_name (c ∷ cs) =
    let m = numbered 0 cs in
    let g = numbered 1 cs in if c == b'M' then m else if c == b'G' then g else 0

-- FNLEN
abbrev pub fnlen : ℕ
fnlen = 28

-- `fn2aidu`, which reads a copy of the first FNLEN characters.
unfoldable pub fn2aidu : List ℕ → ℕ
fn2aidu fn = parse_name (take fnlen fn)
