-- ===== src/Aids.antt =====
-- mbbsd/aids.c: the number of an article, `aidu_t`, its code of 8 characters, and the search for it
-- in a directory file. A string is the list of its bytes without the NUL.
pub mod Code
pub mod Name
pub mod Search
mod Tests
use brs_bbs.Prelude.{
  ℕ, zero, suc, ◌+◌, ◌-◌, ◌*◌, ◌/◌, ◌%◌, ◌^◌, ◌≤◌, ◌<◌, min, ◌≡◌, refl, sym, ap, ap₂, ◌∙◌, subst,
  ◌≢◌, ◌↔◌, ◌⊎◌, inl, inr, Bool, true, false, not, ◌&&◌, ◌||◌, Option, none, some, List, [], ◌∷◌,
  ◌++◌, append-nil, append_assoc, map, flatten, arith, ltb, leb, ◌==◌, if◌then◌else◌, ltb→lt,
  lt→ltb, leb→le, ==_iff, tests, Bool-cases, Option-cases, List-cases, take-whole, within, length,
  get_elem?, set, length-append, length-set, take, drop, replicate, length-take, length-drop,
  take-append-drop, length-replicate,
}

-- `aidu2aidc_table[v]`
pub code_char : ℕ → ℕ
code_char v =
    if ltb v 10
    then b'0' + v
    else if ltb v 36
    then b'A' + (v - 10)
    else if ltb v 62
    then b'a' + (v - 36)
    else if v == 62
    then b'-'
    else b'_'

-- The loop of `aidu2aidc`, for the places left: it stores backwards, in front of `acc`.
pub code_loop : ℕ → ℕ → List ℕ → List ℕ
code_loop zero aidu acc = acc
code_loop (suc n) aidu acc = code_loop n (aidu / 64) (code_char (aidu % 64) ∷ acc)

-- `aidu2aidc`
pub aidu2aidc : ℕ → List ℕ
aidu2aidc aidu = code_loop 8 aidu []

-- the `if … else if` of `aidc2aidu` on letters and digits
pub code_value : ℕ → Option ℕ
code_value c =
    if within b'0' b'9' c
    then some (c - b'0')
    else if within b'A' b'Z' c
    then some (c - b'A' + 10)
    else if within b'a' b'z' c
    then some (c - b'a' + 36)
    else if c == b'-'
    then some 62
    else if c == b'_'
    then some 63
    else none

-- The loop of `aidc2aidu`. The shift leaves six bits clear, so `|=` adds.
pub read_code : ℕ → List ℕ → ℕ
read_code aidu [] = aidu
read_code aidu (c ∷ cs) =
    let v : ℕ = elim (code_value c) [ some v ↦ v | none ↦ 0 ] in
    let rest = read_code (aidu * 64 % 2 ^ 64 + v) cs in
    if c == 32
    then aidu
    else elim (code_value c) [ some _ ↦ rest | none ↦ if c == b'@' then aidu else 0 ]

-- `aidc2aidu`
pub aidc2aidu : List ℕ → ℕ
aidc2aidu aidc = read_code 0 aidc

-- `fileheader_t`, as far as the search reads it; `is_bottom` is `filemode & FILE_BOTTOM`.
pub record FileHeader : Type 0 where
  pub filename : List ℕ
  pub is_bottom : Bool

-- `strcmp(a, b) == 0`, and `strncmp(a, b, strlen(a)) == 0`
pub is_equal : List ℕ → List ℕ → Bool
is_equal [] [] = true
is_equal [] (y ∷ ys) = false
is_equal (x ∷ xs) [] = false
is_equal (x ∷ xs) (y ∷ ys) = let rest = is_equal xs ys in if x == y then rest else false

pub is_prefix : List ℕ → List ℕ → Bool
is_prefix [] ys = true
is_prefix (x ∷ xs) [] = false
is_prefix (x ∷ xs) (y ∷ ys) = let rest = is_prefix xs ys in if x == y then rest else false

-- `pos`, `found` and `lastpos` of `search_aidu_in_bfile`
pub record Scan : Type 0 where
  pub pos : ℕ
  pub found : Bool
  pub lastpos : ℕ

-- `fn` is what `aidu2fn` makes of `aidu`.
module _ (fn : List ℕ) (aidu : ℕ) where
  pub is_match : FileHeader → Bool
  is_match h =
      is_equal h.filename fn
      || (aidu % 2 ^ 12 == 0 && (ltb 6 (length h.filename) && is_prefix h.filename fn))

  -- the loop over the records of one `read`
  pub scan_records : List FileHeader → Scan → Scan
  scan_records [] s = s
  scan_records (h ∷ hs) s =
      let bottom = scan_records hs (record s { lastpos = s.pos; pos = s.pos + 1 }) in
      let next = scan_records hs (record s { pos = s.pos + 1 }) in
      if is_match h then (if h.is_bottom then bottom else record s { found = true }) else next

  -- The loop over the reads, each of which returns some of the records of the file. The part of a
  -- record at its end, which `len /= sizeof(fileheader_t)` drops, is in no read.
  pub scan_file : List (List FileHeader) → Scan → Scan
  scan_file [] s = s
  scan_file (fhs ∷ reads) s =
      let rest = scan_file reads (scan_records fhs s) in if s.found then s else rest

  -- `search_aidu_in_bfile` on a file that could be opened; `none` is -1.
  pub search_in_bfile : List (List FileHeader) → Option ℕ
  search_in_bfile reads =
      let s = scan_file reads (record { pos = 0; found = false; lastpos = 0 }) in
      if s.found then some s.pos else if s.lastpos == 0 then none else some s.lastpos
