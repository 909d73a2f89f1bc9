-- ===== src/Vtkbd/Repeats.antt =====
-- `vtkbd_ignore_dbcs_evil_repeats`: exactly the doubled keys of clients that send one key for each
-- half of a double-byte character are halved.
use brs_bbs.Prelude.{
  ℕ, ◌≡◌, ◌≢◌, inl, inr, refl, List, [], ◌∷◌, ◌++◌, ◌==◌, length, arith, Bool-cases,
}
use brs_bbs.Vtkbd.{key_esc, vkraw_bs, vkraw_erase, ctrl_d, ignore_dbcs_evil_repeats}

-- The keys that such clients double: backspace, erase, Ctrl-D, the two arrows in both modes, DEL.
pub data Repeated : Type 0 where
  bs erase ctrl quote_right quote_left app_right app_left del : Repeated

abbrev pub bytes : Repeated → List ℕ
bytes bs = vkraw_bs ∷ []
bytes erase = vkraw_erase ∷ []
bytes ctrl = ctrl_d ∷ []
bytes quote_right = key_esc ∷ b'[' ∷ b'C' ∷ []
bytes quote_left = key_esc ∷ b'[' ∷ b'D' ∷ []
bytes app_right = key_esc ∷ b'O' ∷ b'C' ∷ []
bytes app_left = key_esc ∷ b'O' ∷ b'D' ∷ []
bytes del = key_esc ∷ b'[' ∷ b'3' ∷ b'~' ∷ []

abbrev IsDoubled : List ℕ → Type 0
IsDoubled buf = (s : Repeated) × (buf ≡ bytes s ++ bytes s)

two-IsDoubled : (a b : ℕ) → ignore_dbcs_evil_repeats (a ∷ b ∷ []) ≢ 2 → IsDoubled (a ∷ b ∷ [])
unfolding ignore_dbcs_evil_repeats
two-IsDoubled a b h = elim (Bool-cases (a == vkraw_bs)) [
  | inl e ↦ (bs, ground arith)
  | inr n ↦ elim (Bool-cases (a == vkraw_erase)) [
    | inl e ↦ (erase, ground arith)
    | inr m ↦ (ctrl, ground arith)
  ]
]

six-IsDoubled :
    (b0 b1 b2 b3 b4 b5 : ℕ)
    → ignore_dbcs_evil_repeats (b0 ∷ b1 ∷ b2 ∷ b3 ∷ b4 ∷ b5 ∷ []) ≢ 6
    → IsDoubled (b0 ∷ b1 ∷ b2 ∷ b3 ∷ b4 ∷ b5 ∷ [])
unfolding ignore_dbcs_evil_repeats
six-IsDoubled b0 b1 b2 b3 b4 b5 h = elim (Bool-cases (b1 == b'[')) [
  | inl q ↦ elim (Bool-cases (b2 == b'C')) [
    | inl e ↦ (quote_right, ground arith)
    | inr n ↦ (quote_left, ground arith)
  ]
  | inr a ↦ elim (Bool-cases (b2 == b'C')) [
    | inl e ↦ (app_right, ground arith)
    | inr n ↦ (app_left, ground arith)
  ]
]

eight-IsDoubled :
    (b0 b1 b2 b3 b4 b5 b6 b7 : ℕ)
    → ignore_dbcs_evil_repeats (b0 ∷ b1 ∷ b2 ∷ b3 ∷ b4 ∷ b5 ∷ b6 ∷ b7 ∷ []) ≢ 8
    → IsDoubled (b0 ∷ b1 ∷ b2 ∷ b3 ∷ b4 ∷ b5 ∷ b6 ∷ b7 ∷ [])
unfolding ignore_dbcs_evil_repeats
eight-IsDoubled b0 b1 b2 b3 b4 b5 b6 b7 h = (del, ground arith)

halves-IsDoubled : (buf : List ℕ) → ignore_dbcs_evil_repeats buf ≢ length buf → IsDoubled buf
unfolding ignore_dbcs_evil_repeats
halves-IsDoubled (a ∷ b ∷ []) h = two-IsDoubled a b h
halves-IsDoubled (b0 ∷ b1 ∷ b2 ∷ b3 ∷ b4 ∷ b5 ∷ []) h = six-IsDoubled b0 b1 b2 b3 b4 b5 h
halves-IsDoubled (b0 ∷ b1 ∷ b2 ∷ b3 ∷ b4 ∷ b5 ∷ b6 ∷ b7 ∷ []) h =
    eight-IsDoubled b0 b1 b2 b3 b4 b5 b6 b7 h
halves-IsDoubled _ h = absurd (h refl)

-- The length is halved for a doubled key of the list, and is left alone for every buffer that is
-- not exactly one such key sent twice.
pub ignore_dbcs_evil_repeats_lem :
    ((s : Repeated) → ignore_dbcs_evil_repeats (bytes s ++ bytes s) ≡ length (bytes s))
    × ((buf : List ℕ) → ignore_dbcs_evil_repeats buf ≢ length buf → IsDoubled buf)
unfolding ignore_dbcs_evil_repeats
ignore_dbcs_evil_repeats_lem = (halved, halves-IsDoubled)
  where
    halved : (s : Repeated) → ignore_dbcs_evil_repeats (bytes s ++ bytes s) ≡ length (bytes s)
    halved bs = refl
    halved _ = refl
