-- ===== src/Utf8.antt =====
-- 16-bit characters and their UTF-8 bytes (common/sys/utf8.c).
--
-- The bits that `|` joins are disjoint, so a sum stands for it; shifts and masks are divisions and
-- remainders. A byte behind the end of a list is a NUL.
pub mod Code
mod Tests
use brs_bbs.Prelude.{
  ℕ, zero, suc, ◌+◌, ◌-◌, ◌*◌, ◌/◌, ◌%◌, ◌^◌, ◌≤◌, ◌<◌, min, ◌≡◌, refl, sym, ap, ap₂, ◌∙◌, subst,
  ◌≢◌, ◌↔◌, ◌⊎◌, inl, inr, Bool, true, false, not, ◌&&◌, ◌||◌, Option, none, some, List, [], ◌∷◌,
  ◌++◌, append-nil, append_assoc, map, flatten, arith, ltb, leb, ◌==◌, if◌then◌else◌, ltb→lt,
  lt→ltb, leb→le, ==_iff, tests, Bool-cases, Option-cases, List-cases, ◌>>=◌, take-whole,
  drop-whole, take-append_le, take-append_past, drop-append_past, drop-drop, take-take,
  drop-append_le, drop-take, within, length, get_elem?, set, length-append, length-set, take, drop,
  replicate, length-take, length-drop, take-append-drop, length-replicate,
}
use brs_bbs.Prelude.Bytes.{at}

unfoldable pub ucs2utf : ℕ → List ℕ
ucs2utf ucs2 =
    if ucs2 / 128 == 0
    then ucs2 ∷ []
    else if ucs2 / 2048 % 32 == 0
    then (192 + ucs2 / 64) ∷ (128 + ucs2 % 64) ∷ []
    else (224 + ucs2 / 4096) ∷ (128 + ucs2 / 64 % 64) ∷ (128 + ucs2 % 64) ∷ []

-- `*pucs`, and the number of bytes.
unfoldable pub utf2ucs : List ℕ → ℕ × ℕ
utf2ucs utf8 =
    let c = at utf8 0 in
    if c / 128 % 2 == 0
    then (c, 1)
    else if c / 32 == 6
    then (c % 32 * 64 + at utf8 1 % 64, 2)
    else if c / 32 == 7
    then (c % 16 * 4096 + at utf8 1 % 64 * 64 + at utf8 2 % 64, 3)
    else (63, 1)
