-- ===== src/Aids/Search.antt =====
-- `search_aidu_in_bfile`: which record is found, however the reads cut the file.
use brs_bbs.Prelude.{
  ℕ, zero, suc, ◌+◌, ◌≡◌, refl, ap, ◌∙◌, inl, inr, Bool, true, false, not, ◌&&◌, Option, none, some,
  List, [], ◌∷◌, ◌++◌, flatten, arith, ◌==◌, if◌then◌else◌, Bool-cases,
}
use brs_bbs.Aids.{FileHeader, Scan, is_match, scan_records, scan_file, search_in_bfile}

-- The place of the first record that `p` accepts, and of the last.
pub first_index : (FileHeader → Bool) → List FileHeader → Option ℕ
first_index p [] = none
first_index p (h ∷ hs) =
    let rest : Option ℕ = elim (first_index p hs) [ none ↦ none | some i ↦ some (i + 1) ] in
    if p h then some 0 else rest

pub last_index : (FileHeader → Bool) → List FileHeader → Option ℕ
last_index p [] = none
last_index p (h ∷ hs) = elim (last_index p hs) [
  | some i ↦ some (i + 1)
  | none ↦ if p h then some 0 else none
]

-- -1 where the place is 0, as `lastpos ? lastpos : -1`
abbrev pub or_lost : Option ℕ → Option ℕ
or_lost none = none
or_lost (some zero) = none
or_lost (some (suc n)) = some (suc n)

abbrev answer : Scan → Option ℕ
answer s = if s.found then some s.pos else if s.lastpos == 0 then none else some s.lastpos

module _ (fn : List ℕ) (aidu : ℕ) where
  pub plain : FileHeader → Bool
  plain h = is_match fn aidu h && not h.is_bottom

  pub bottom : FileHeader → Bool
  bottom h = is_match fn aidu h && h.is_bottom

  -- A scan goes on over the next records unless it has found one.
  scan_records-append :
      (xs ys : List FileHeader) (s : Scan)
      → s.found ≡ false
      → let r = scan_records fn aidu xs s in
        scan_records fn aidu (xs ++ ys) s ≡ (if r.found then r else scan_records fn aidu ys r)
  unfolding scan_records
  scan_records-append [] ys s h = rw h
  scan_records-append (x ∷ xs) ys s h = elim (Bool-cases (is_match fn aidu x)) [
    | inl m ↦ elim (Bool-cases x.is_bottom) [
      | inl b ↦
          rw (m, b) (scan_records-append xs ys (record s { lastpos = s.pos; pos = s.pos + 1 }) h)
      | inr b ↦ rw (m, b) refl
    ]
    | inr n ↦ rw n (scan_records-append xs ys (record s { pos = s.pos + 1 }) h)
  ]

  scan_file-found :
      (reads : List (List FileHeader)) (s : Scan) → s.found ≡ true → scan_file fn aidu reads s ≡ s
  unfolding scan_file
  scan_file-found [] s h = refl
  scan_file-found (fhs ∷ reads) s h = rw h

  scan_file-next :
      (fhs : List FileHeader) (reads : List (List FileHeader)) (s : Scan)
      → s.found ≡ false
      → scan_file fn aidu (fhs ∷ reads) s ≡ scan_file fn aidu reads (scan_records fn aidu fhs s)
  unfolding scan_file
  scan_file-next fhs reads s h = ground arith

  scan_file-flatten :
      (reads : List (List FileHeader)) (s : Scan)
      → s.found ≡ false
      → scan_file fn aidu reads s ≡ scan_records fn aidu (flatten reads) s
  unfolding scan_file scan_records mathlib.Core.List.flatten
  scan_file-flatten [] s h = refl
  scan_file-flatten (fhs ∷ reads) s h =
      scan_file-next fhs reads s h ∙ (elim (Bool-cases (scan_records fn aidu fhs s).found) [
        | inl e ↦
            rw
              (
                scan_file-found reads (scan_records fn aidu fhs s) e,
                scan_records-append fhs (flatten reads) s h,
                e,
              )
              refl
        | inr e ↦
            rw (scan_records-append fhs (flatten reads) s h, e)
              (scan_file-flatten reads (scan_records fn aidu fhs s) e)
      ])

  -- What a scan of the records answers from the state `s`.
  expected : List FileHeader → Scan → Option ℕ
  expected hs s = elim (first_index plain hs) [
    | some i ↦ some (s.pos + i)
    | none ↦ elim (last_index bottom hs) [
      | some j ↦ if s.pos + j == 0 then none else some (s.pos + j)
      | none ↦ if s.lastpos == 0 then none else some s.lastpos
    ]
  ]

  scan_records-expected :
      (hs : List FileHeader) (s : Scan)
      → s.found ≡ false
      → answer (scan_records fn aidu hs s) ≡ expected hs s
  unfolding scan_records expected first_index last_index plain bottom
  scan_records-expected [] s h = rw h
  scan_records-expected (x ∷ xs) s h = elim (Bool-cases (is_match fn aidu x)) [
    | inl m ↦ elim (Bool-cases x.is_bottom) [
      | inl b ↦
          ground (arith, scan_records-expected xs (record s { lastpos = s.pos; pos = s.pos + 1 }))
      | inr b ↦ ground arith
    ]
    | inr n ↦ ground (arith, scan_records-expected xs (record s { pos = s.pos + 1 }))
  ]

  expected-start :
      (hs : List FileHeader)
      → expected hs (record { pos = 0; found = false; lastpos = 0 })
        ≡ elim (first_index plain hs) [ some i ↦ some i | none ↦ or_lost (last_index bottom hs) ]
  unfolding expected
  expected-start hs = ground arith

  -- However the reads cut the file, `search_aidu_in_bfile` finds the first record that matches and
  -- is not at the bottom; if there is none, the last that matches at the bottom, but -1 where that
  -- is the first record of the file; else -1.
  pub search_in_bfile-flatten :
      (reads : List (List FileHeader))
      → search_in_bfile fn aidu reads ≡ elim (first_index plain (flatten reads)) [
        | some i ↦ some i
        | none ↦ or_lost (last_index bottom (flatten reads))
      ]
  unfolding search_in_bfile
  search_in_bfile-flatten reads =
      let start : Scan = record { pos = 0; found = false; lastpos = 0 } in
      ap answer (scan_file-flatten reads start refl)
      ∙ scan_records-expected (flatten reads) start refl
      ∙ expected-start (flatten reads)
