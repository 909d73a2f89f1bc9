-- ===== src/Prelude/Case.antt =====
-- Letters and their case, in the C locale.
use brs_bbs.Prelude.{ℕ, ◌+◌, ◌-◌, Bool, true, false, List, [], ◌∷◌, ◌==◌, if◌then◌else◌, within}

abbrev pub to_upper : ℕ → ℕ
to_upper c = if within 97 122 c then c - 32 else c

abbrev pub to_lower : ℕ → ℕ
to_lower c = if within 65 90 c then c + 32 else c

-- `strcasecmp(a, b) == 0`
unfoldable pub is_same_name : List ℕ → List ℕ → Bool
is_same_name [] [] = true
is_same_name [] (d ∷ ds) = false
is_same_name (c ∷ cs) [] = false
is_same_name (c ∷ cs) (d ∷ ds) = if to_lower c == to_lower d then is_same_name cs ds else false
