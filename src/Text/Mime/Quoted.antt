-- ===== src/Text/Mime/Quoted.antt =====
-- `qp_encode` stays inside its buffer, and `mmdecode` reads its output back.
use brs_bbs.Prelude.{
  ℕ, suc, ◌+◌, ◌*◌, ◌/◌, ◌%◌, ◌≤◌, ◌<◌, ◌≡◌, refl, ap, ◌∙◌, inl, inr, true, false, Option, some,
  List, [], ◌∷◌, ◌++◌, append_assoc, arith, ltb, ◌==◌, ltb→lt, Bool-cases, length, length-append,
  take,
}
use brs_bbs.Prelude.Bytes.{AreBytes}
use brs_bbs.Text.Mime.{
  hex_digit, is_mime_special, qp_char, qp_loop, qp_head, qp_encode, qp_code, isreturn, push,
  plain_byte, quoted_byte, decode_quoted, mmdecode, is_coded,
}

qp_char-le : (c : ℕ) → length (qp_char c) ≤ 3
unfolding qp_char
qp_char-le c = ground arith

qp_code-hex_digit : (n : ℕ) → n < 16 → qp_code (hex_digit n) ≡ some n
unfolding qp_code hex_digit
qp_code-hex_digit n h = ground arith

qp_loop-fits :
    (slen pos : ℕ) (d : List ℕ) → pos + 3 < slen → pos + length (qp_loop slen pos d) + 3 < slen
unfolding qp_loop
qp_loop-fits slen pos [] h = omega arith
qp_loop-fits slen pos (c ∷ cs) h = elim (Bool-cases (ltb (pos + 6) slen)) [
  | inl e ↦ rw e (
      omega (
        arith,
        qp_loop-fits slen (pos + length (qp_char c)) cs (omega (arith, qp_char-le c, ltb→lt _ _ e)),
        length-append (qp_char c) (qp_loop slen (pos + length (qp_char c)) cs),
      ))
  | inr n ↦ rw n (omega arith)
]

decode_quoted-plain :
    (c : ℕ) (xs : List ℕ)
    → (c == b'=') ≡ false
    → decode_quoted (c ∷ xs) ≡ plain_byte c (decode_quoted xs)
unfolding decode_quoted
decode_quoted-plain c [] n = rw n
decode_quoted-plain c (x ∷ []) n = rw n
decode_quoted-plain c (x ∷ y ∷ xs) n = rw n

isreturn-hex_digit : (n : ℕ) → n < 16 → isreturn (hex_digit n) ≡ false
unfolding hex_digit isreturn
isreturn-hex_digit n h = ground arith

quoted_byte-hex_digit :
    (h l : ℕ) (r : Option (List ℕ))
    → h < 16
    → l < 16
    → quoted_byte (hex_digit h) (hex_digit l) r ≡ push (h * 16 + l) r
unfolding quoted_byte
quoted_byte-hex_digit h l r hh hl =
    rw (quoted_byte, qp_code-hex_digit h hh, qp_code-hex_digit l hl) refl

decode_quoted-escaped :
    (h l : ℕ) (xs : List ℕ)
    → h < 16
    → l < 16
    → decode_quoted (b'=' ∷ hex_digit h ∷ hex_digit l ∷ xs) ≡ push (h * 16 + l) (decode_quoted xs)
unfolding decode_quoted
decode_quoted-escaped h l xs hh hl =
    rw (isreturn-hex_digit h hh) (quoted_byte-hex_digit h l (decode_quoted xs) hh hl)

-- the kinds of bytes that `qp_encode` tells apart
data Kind (c : ℕ) : Type 0 where
  space : (c == 32) ≡ true → Kind c
  escaped : qp_char c ≡ b'=' ∷ hex_digit (c / 16) ∷ hex_digit (c % 16) ∷ [] → Kind c
  kept :
      qp_char c ≡ c ∷ [] → (c == b'=') ≡ false → (c == b'?') ≡ false → (c == b'_') ≡ false → Kind c

is_coded-false :
    (c : ℕ)
    → is_coded c ≡ false
    → ((c == b'=') ≡ false) × ((c == b'?') ≡ false) × ((c == b'_') ≡ false)
unfolding is_coded is_mime_special
is_coded-false c h = (ground arith, ground arith, ground arith)

kind : (c : ℕ) → Kind c
unfolding qp_char
kind c = elim (Bool-cases (c == 32)) [
  | inl e ↦ space e
  | inr n ↦ elim (Bool-cases (is_coded c)) [
    | inl e ↦ escaped (rw (n, e))
    | inr k ↦ let (q, m, u) = is_coded-false c k in kept (rw (n, k)) q m u
  ]
]

-- A byte that was encoded is read back, and the rest after it.
decode_quoted-qp_char :
    (c : ℕ) (r : List ℕ) → c < 256 → decode_quoted (qp_char c ++ r) ≡ push c (decode_quoted r)
unfolding plain_byte qp_char
decode_quoted-qp_char c r w = elim (kind c) [
  | space e ↦
      rw e (decode_quoted-plain b'_' r refl ∙ ap (λ b. push b (decode_quoted r)) (ground arith))
  | escaped e ↦ rw e (
      decode_quoted-escaped (c / 16) (c % 16) r (omega arith) (omega arith)
      ∙ ap (λ b. push b (decode_quoted r)) (omega arith))
  | kept e n q u ↦ rw e (decode_quoted-plain c r n ∙ rw (q, u))
]

-- the end of an encoded word
abbrev pub qp_end : List ℕ
qp_end = b'?' ∷ b'=' ∷ []

decode_quoted-qp_end : decode_quoted qp_end ≡ some []
unfolding decode_quoted plain_byte
decode_quoted-qp_end = refl

-- The decoder reads back the bytes for which there was room.
decode_quoted-qp_loop :
    (slen pos : ℕ) (d : List ℕ)
    → AreBytes d
    → (k : ℕ) × (decode_quoted (qp_loop slen pos d ++ qp_end) ≡ some (take k d))
      × (pos + 3 * length d + 3 < slen → take k d ≡ d)
unfolding qp_loop
decode_quoted-qp_loop slen pos [] w = (0, decode_quoted-qp_end, λ h. refl)
decode_quoted-qp_loop slen pos (c ∷ cs) (wc, w) = elim (Bool-cases (ltb (pos + 6) slen)) [
  | inl e ↦
      let (k, dec, all) = decode_quoted-qp_loop slen (pos + length (qp_char c)) cs w in
      (
        suc k,
        rw e (
            rw (append_assoc (qp_char c) (qp_loop slen (pos + length (qp_char c)) cs) qp_end)
              (decode_quoted-qp_char c _ wc ∙ ap (push c) dec)),
        λ h. ap (λ r. c ∷ r) (all (omega (arith, qp_char-le c))),
      )
  | inr n ↦ (0, rw n decode_quoted-qp_end, λ h. ground arith)
]

-- `qp_encode`, whose assertion holds, stores at most `slen` bytes with its NUL.
pub qp_encode-fits :
    (slen : ℕ) (d tocode : List ℕ)
    → length (qp_head tocode) + 3 < slen
    → length (qp_encode slen d tocode) + 1 ≤ slen
unfolding qp_encode
qp_encode-fits slen d tocode h =
    let p = qp_loop slen (length (qp_head tocode)) d in
    omega (
      arith,
      qp_loop-fits slen (length (qp_head tocode)) d h,
      length-append (qp_head tocode) (p ++ qp_end),
      length-append p qp_end,
    )

-- What `qp_encode` stores behind its head is read back by `mmdecode` as the first bytes of the
-- source; as all of them, if the buffer has three bytes for each byte and four to spare.
pub mmdecode-qp_encode :
    (slen : ℕ) (d tocode : List ℕ)
    → AreBytes d
    → (k : ℕ) × (payload : List ℕ) × (qp_encode slen d tocode ≡ qp_head tocode ++ payload)
      × (mmdecode payload b'Q' ≡ some (take k d))
      × (length (qp_head tocode) + 3 * length d + 3 < slen → take k d ≡ d)
unfolding qp_encode mmdecode
mmdecode-qp_encode slen d tocode w =
    let (k, dec, all) = decode_quoted-qp_loop slen (length (qp_head tocode)) d w in
    (k, qp_loop slen (length (qp_head tocode)) d ++ qp_end, refl, dec, all)
