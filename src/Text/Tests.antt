-- ===== src/Text/Tests.antt =====
-- Runs of the string helpers at concrete inputs.
use brs_bbs.Prelude.{ℕ, ◌+◌, ◌*◌, ◌<◌, ◌≡◌, some, List, [], ◌∷◌, ◌++◌, arith, length, take}
use brs_bbs.Text.Ansi.{strat_ansi}
use brs_bbs.Text.Ansi.Offset.{IsOffset, strat_ansi-IsOffset}
use brs_bbs.Text.Mime.{qp_encode, qp_head, mmdecode}
use brs_bbs.Text.Mime.Quoted.{mmdecode-qp_encode}
use brs_bbs.Text.Mime.Base64.{base64, mmdecode-base64}

-- no byte above 127 is a parameter or a command
abbrev nothing : ℕ → ℕ
nothing c = 0

-- `a <Esc> [ 3 1 m b`
abbrev coloured : List ℕ
coloured = b'a' ∷ 27 ∷ b'[' ∷ b'3' ∷ b'1' ∷ b'm' ∷ b'b' ∷ []

strat_ansi-IsOffset_example : IsOffset nothing 2 coloured (strat_ansi nothing 2 coloured)
strat_ansi-IsOffset_example = strat_ansi-IsOffset nothing 2 coloured

-- a character of two bytes, and half of one
abbrev cut_off : List ℕ
cut_off = b'x' ∷ 0xa4 ∷ 0x40 ∷ 0xa4 ∷ []

abbrev charset : List ℕ
charset = b'b' ∷ b'i' ∷ b'g' ∷ b'5' ∷ []

mmdecode-qp_encode_example :
    (k : ℕ) × (payload : List ℕ) × (qp_encode 40 cut_off charset ≡ qp_head charset ++ payload)
    × (mmdecode payload b'Q' ≡ some (take k cut_off))
    × (length (qp_head charset) + 3 * 4 + 3 < 40 → take k cut_off ≡ cut_off)
mmdecode-qp_encode_example = mmdecode-qp_encode 40 cut_off charset (ground arith)

mmdecode-base64_example : mmdecode (base64 cut_off ++ (b'?' ∷ b'=' ∷ [])) b'B' ≡ some cut_off
mmdecode-base64_example = mmdecode-base64 cut_off (b'=' ∷ []) (ground arith)
