-- ===== src/Utf8/Tests.antt =====
-- The sequences that utf8.c tests itself, and the theorem at an input.
use brs_bbs.Prelude.{◌≡◌, refl, [], ◌∷◌, ◌++◌, arith, length}
use brs_bbs.Utf8.{ucs2utf, utf2ucs}
use brs_bbs.Utf8.Code.{utf2ucs-ucs2utf}

dollar : ucs2utf 36 ≡ 36 ∷ []
unfolding ucs2utf
dollar = refl

cent : (ucs2utf 162 ≡ 194 ∷ 162 ∷ []) × (utf2ucs (194 ∷ 162 ∷ []) ≡ (162, 2))
unfolding ucs2utf utf2ucs
cent = (refl, refl)

euro : (ucs2utf 8364 ≡ 226 ∷ 130 ∷ 172 ∷ []) × (utf2ucs (226 ∷ 130 ∷ 172 ∷ []) ≡ (8364, 3))
unfolding ucs2utf utf2ucs
euro = (refl, refl)

utf2ucs-ucs2utf_example : utf2ucs (ucs2utf 8364 ++ 65 ∷ []) ≡ (8364, length (ucs2utf 8364))
utf2ucs-ucs2utf_example = utf2ucs-ucs2utf 8364 (65 ∷ []) (omega arith)
