-- ===== src/Text/Mime.antt =====
-- Encoded words of mail headers in common/sys/string.c: `qp_encode` and `mmdecode`. A failure, -1,
-- is `none`.
pub mod Quoted
pub mod Base64
use brs_bbs.Prelude.{
  ℕ, zero, suc, ◌+◌, ◌-◌, ◌*◌, ◌/◌, ◌%◌, ◌^◌, ◌≤◌, ◌<◌, min, ◌≡◌, refl, sym, ap, ap₂, ◌∙◌, subst,
  ◌≢◌, ◌↔◌, ◌⊎◌, inl, inr, Bool, true, false, not, ◌&&◌, ◌||◌, Option, none, some, List, [], ◌∷◌,
  ◌++◌, append-nil, append_assoc, map, flatten, arith, ltb, leb, ◌==◌, if◌then◌else◌, ltb→lt,
  lt→ltb, leb→le, ==_iff, tests, Bool-cases, Option-cases, List-cases, take-whole, within, length,
  get_elem?, set, length-append, length-set, take, drop, replicate, length-take, length-drop,
  take-append-drop, length-replicate,
}

-- `hex[n]`
pub hex_digit : ℕ → ℕ
hex_digit n = if ltb n 10 then b'0' + n else b'A' + (n - 10)

-- `strchr (MimeSpecials, c)`
pub is_mime_special : ℕ → Bool
is_mime_special c =
    c == b'@'
    || (c == b'.'
        || (c == b','
            || (c == b';'
                || (c == b':'
                    || (c == b'<'
                        || (c == b'>'
                            || (c == b'['
                                || (c == b']'
                                    || (c == 92
                                        || (c == 34
                                            || (c == b'('
                                                || (c == b')'
                                                    || (c == b'?'
                                                        || (c == b'/'
                                                            || (c == b'='
                                                            || (c == 32 || c == 9))))))))))))))))

-- `c >= 0x7f || c < 0x20 || c == '_' ||  strchr (MimeSpecials, c)`
pub is_coded : ℕ → Bool
is_coded c = leb 0x7f c || (ltb c 0x20 || (c == b'_' || is_mime_special c))

-- what the loop of `qp_encode` stores for a byte
pub qp_char : ℕ → List ℕ
qp_char c =
    if c == 32
    then b'_' ∷ []
    else if is_coded c
    then b'=' ∷ hex_digit (c / 16) ∷ hex_digit (c % 16) ∷ []
    else c ∷ []

-- The loop of `qp_encode`, from the offset `s - s0`.
pub qp_loop : ℕ → ℕ → List ℕ → List ℕ
qp_loop slen pos [] = []
qp_loop slen pos (c ∷ cs) =
    let rest = qp_loop slen (pos + length (qp_char c)) cs in
    if ltb (pos + 6) slen then qp_char c ++ rest else []

-- `=?charset?Q?`
unfoldable pub qp_head : List ℕ → List ℕ
qp_head tocode = b'=' ∷ b'?' ∷ (tocode ++ (b'?' ∷ b'Q' ∷ b'?' ∷ []))

-- `qp_encode`, without the NUL; the assertion is `length (qp_head tocode) + 3 < slen`.
pub qp_encode : ℕ → List ℕ → List ℕ → List ℕ
qp_encode slen d tocode =
    qp_head tocode ++ (qp_loop slen (length (qp_head tocode)) d ++ (b'?' ∷ b'=' ∷ []))

-- `qp_code`
pub qp_code : ℕ → Option ℕ
qp_code x =
    if within b'0' b'9' x
    then some (x - b'0')
    else if within b'a' b'f' x
    then some (x - b'a' + 10)
    else if within b'A' b'F' x
    then some (x - b'A' + 10)
    else none

-- `base64_code`
pub base64_code : ℕ → Option ℕ
base64_code x =
    if within b'A' b'Z' x
    then some (x - b'A')
    else if within b'a' b'z' x
    then some (x - b'a' + 26)
    else if within b'0' b'9' x
    then some (x - b'0' + 52)
    else if x == b'+'
    then some 62
    else if x == b'/'
    then some 63
    else none

pub isreturn : ℕ → Bool
isreturn c = c == 13 || c == 10

-- `*t++ = c` in front of the rest
abbrev pub push : ℕ → Option (List ℕ) → Option (List ℕ)
push c none = none
push c (some t) = some (c ∷ t)

-- a byte other than `=`
pub plain_byte : ℕ → Option (List ℕ) → Option (List ℕ)
plain_byte c rest = if c == b'?' then some [] else if c == b'_' then push 32 rest else push c rest

-- `=` and two bytes
pub quoted_byte : ℕ → ℕ → Option (List ℕ) → Option (List ℕ)
quoted_byte x y rest = elim (qp_code x) [
  | none ↦ none
  | some h ↦ elim (qp_code y) [ none ↦ none | some l ↦ push (h * 16 + l) rest ]
]

-- `case 'q'` of `mmdecode`: the bytes stored at `dst`.
pub decode_quoted : List ℕ → Option (List ℕ)
decode_quoted [] = some []
decode_quoted (c ∷ []) = if c == b'=' then none else plain_byte c (some [])
decode_quoted (c ∷ x ∷ []) =
    let next = decode_quoted (x ∷ []) in
    if c == b'=' then (if isreturn x then some [] else none) else plain_byte c next
decode_quoted (c ∷ x ∷ y ∷ cs) =
    let next = decode_quoted (x ∷ y ∷ cs) in
    let line = decode_quoted (y ∷ cs) in
    let rest = decode_quoted cs in
    if c == b'=' then (if isreturn x then line else quoted_byte x y rest) else plain_byte c next

-- `case 'b'` of `mmdecode`. `pattern` is a 32-bit pattern.
pub decode_base64 : ℕ → ℕ → List ℕ → List ℕ
decode_base64 pattern bits [] = []
decode_base64 pattern bits (c ∷ cs) =
    let skip = decode_base64 pattern bits cs in
    let x : ℕ = elim (base64_code c) [ none ↦ 0 | some x ↦ x ] in
    let p = (pattern * 64 + x) % 2 ^ 32 in
    let short = decode_base64 p (bits + 6) cs in
    let byte = decode_base64 p (bits + 6 - 8) cs in
    if c == b'?' then [] else elim (base64_code c) [
      | none ↦ skip
      | some _ ↦ if leb 8 (bits + 6) then p / 2 ^ (bits + 6 - 8) % 256 ∷ byte else short
    ]

-- `mmdecode`; `encode |= 0x20` makes a letter a small one.
pub mmdecode : List ℕ → ℕ → Option (List ℕ)
mmdecode src encode =
    if encode == b'q' || encode == b'Q'
    then decode_quoted src
    else if encode == b'b' || encode == b'B'
    then some (decode_base64 0 0 src)
    else none
