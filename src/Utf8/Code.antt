-- ===== src/Utf8/Code.antt =====
-- Every 16-bit character is read back from its bytes.
use brs_bbs.Prelude.{
  ℕ, ◌+◌, ◌*◌, ◌/◌, ◌%◌, ◌^◌, ◌<◌, ◌≡◌, refl, inl, inr, true, false, List, ◌++◌, arith, ◌==◌,
  Bool-cases, length,
}
use brs_bbs.Utf8.{ucs2utf, utf2ucs}

two_bytes :
    (n : ℕ)
    → n < 2048
    → (((192 + n / 64) / 128 % 2 == 0) ≡ false)
      × (((192 + n / 64) / 32 == 6) ≡ true)
      × ((192 + n / 64) % 32 * 64 + (128 + n % 64) % 64 ≡ n)
two_bytes n h = (ground arith, ground arith, omega arith)

three_bytes :
    (n : ℕ)
    → n < 2 ^ 16
    → (((224 + n / 4096) / 128 % 2 == 0) ≡ false)
      × (((224 + n / 4096) / 32 == 6) ≡ false)
      × (((224 + n / 4096) / 32 == 7) ≡ true)
      × ((224 + n / 4096) % 16 * 4096 + (128 + n / 64 % 64) % 64 * 64 + (128 + n % 64) % 64 ≡ n)
three_bytes n h = (ground arith, ground arith, ground arith, omega arith)

-- A 16-bit character is read back from its UTF-8 bytes, whatever follows them, and as many bytes
-- are taken as were written.
pub utf2ucs-ucs2utf :
    (n : ℕ) (rest : List ℕ) → n < 2 ^ 16 → utf2ucs (ucs2utf n ++ rest) ≡ (n, length (ucs2utf n))
unfolding utf2ucs ucs2utf
utf2ucs-ucs2utf n rest h = elim (Bool-cases (n / 128 == 0)) [
  | inl e ↦
      let small : n < 128 = ground arith in
      let c : (n / 128 % 2 == 0) ≡ true = ground arith in rw e (rw c refl)
  | inr e ↦ elim (Bool-cases (n / 2048 % 32 == 0)) [
    | inl e2 ↦
        let small : n < 2048 = ground arith in
        let (lead, kind, value) = two_bytes n small in rw (e, e2) (rw (lead, kind, value) refl)
    | inr e3 ↦
        let (lead, not_two, kind, value) = three_bytes n h in
        rw (e, e3) (rw (lead, not_two, kind, value) refl)
  ]
]
