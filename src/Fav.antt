-- ===== src/Fav.antt =====
-- The favourites of a user (mbbsd/fav.c, include/fav.h): the tree of folders, its clean-up, and the
-- file that it is saved to.
--
-- A folder is its counters and its entries up to DataTail; the array is longer by what `n_allocs`
-- says. Types other than the three are left out, since nothing makes one. Counters of a char wrap
-- at 256. The file is little endian, and an int has four bytes.
pub mod Tree
pub mod Rebuild
pub mod Store
pub mod Items
pub mod Saved
mod Tests
use brs_bbs.Prelude.{
  ℕ, zero, suc, ◌+◌, ◌-◌, ◌*◌, ◌/◌, ◌%◌, ◌^◌, ◌≤◌, ◌<◌, min, ◌≡◌, refl, sym, ap, ap₂, ◌∙◌, subst,
  ◌≢◌, ◌↔◌, ◌⊎◌, inl, inr, Bool, true, false, not, ◌&&◌, ◌||◌, Option, none, some, List, [], ◌∷◌,
  ◌++◌, append-nil, append_assoc, map, flatten, arith, ltb, leb, ◌==◌, if◌then◌else◌, ltb→lt,
  lt→ltb, leb→le, ==_iff, tests, Bool-cases, Option-cases, List-cases, ◌>>=◌, take-whole,
  drop-whole, take-append_le, take-append_past, drop-append_past, drop-drop, take-take,
  drop-append_le, drop-take, within, length, get_elem?, set, length-append, length-set, take, drop,
  replicate, length-take, length-drop, take-append-drop, length-replicate,
}
use brs_bbs.Prelude.Bytes.{at, read_at}

pub record Counts : Type 0 where
  pub n_allocs : ℕ
  pub n_boards : ℕ
  pub n_lines : ℕ
  pub n_folders : ℕ
  pub line_id : ℕ
  pub folder_id : ℕ

mutual
  -- `fav_t`
  pub data Fav : Type 0 where
    fav : Counts → Entries → Fav

  -- `favh`: the attribute of an entry and what is behind its pointer.
  pub data Entries : Type 0 where
    no_more : Entries
    board : (attr bid lastvisit brd_attr : ℕ) → Entries → Entries
    line : (attr lid : ℕ) → Entries → Entries
    folder : (attr fid : ℕ) → (title : List ℕ) → Fav → Entries → Entries

-- `attr & FAVH_FAV`
abbrev pub valid_item : ℕ → Bool
valid_item attr = attr % 2 == 1

abbrev pub get_data_number : Counts → ℕ
get_data_number c = c.n_boards + c.n_lines + c.n_folders

abbrev pub max_fav : ℕ
max_fav = 1024

abbrev pub max_line : ℕ
max_line = 64

abbrev pub max_folder : ℕ
max_folder = 64

abbrev pub fav_pre_alloc : ℕ
fav_pre_alloc = 8

-- `fav_increase`, for each type; the new id of a line or a folder is the counter.
abbrev pub more_boards : Counts → Counts
more_boards c = record c { n_boards = c.n_boards + 1 }

abbrev pub more_lines : Counts → Counts
more_lines c = record c { n_lines = (c.n_lines + 1) % 256; line_id = (c.line_id + 1) % 256 }

abbrev pub more_folders : Counts → Counts
more_folders c = record c {
  n_folders = (c.n_folders + 1) % 256;
  folder_id = (c.folder_id + 1) % 256;
}

abbrev pub no_counts : Counts → Counts
no_counts c = record {
  n_allocs = c.n_allocs;
  n_boards = 0;
  n_lines = 0;
  n_folders = 0;
  line_id = 0;
  folder_id = 0;
}

-- `is_need_rebuild_fav`
unfoldable mutual
  pub needs_rebuild : Fav → Bool
  needs_rebuild (fav c es) = needs_rebuild_in es

  pub needs_rebuild_in : Entries → Bool
  needs_rebuild_in no_more = false
  needs_rebuild_in (board attr bid lastvisit brd_attr es) =
      let rest = needs_rebuild_in es in if valid_item attr then rest else true
  needs_rebuild_in (line attr lid es) =
      let rest = needs_rebuild_in es in if valid_item attr then rest else true
  needs_rebuild_in (folder attr fid title sub es) =
      let inner = needs_rebuild sub in
      let rest = needs_rebuild_in es in
      if valid_item attr then (if inner then true else rest) else true

pub record Rebuilt : Type 0 where
  pub number : ℕ
  pub counts : Counts
  pub entries : Entries

-- `rebuild_fav`, with `fav_number` in front, which counts at least the entries of the folder.
unfoldable mutual
  pub rebuild_fav : ℕ → Fav → ℕ × Fav
  rebuild_fav number (fav c es) =
      let r = rebuild_in (number - get_data_number c) (no_counts c) es in
      (r.number, fav r.counts r.entries)

  pub rebuild_in : ℕ → Counts → Entries → Rebuilt
  rebuild_in number c no_more = record { number = number; counts = c; entries = no_more }
  rebuild_in number c (board attr bid lastvisit brd_attr es) =
      let kept = rebuild_in (number + 1) (more_boards c) es in
      let left_out = rebuild_in number c es in
      if valid_item attr
      then record kept { entries = board attr bid lastvisit brd_attr kept.entries }
      else left_out
  rebuild_in number c (line attr lid es) =
      let kept = rebuild_in (number + 1) (more_lines c) es in
      let left_out = rebuild_in number c es in
      if valid_item attr
      then record kept { entries = line attr (more_lines c).line_id kept.entries }
      else left_out
  rebuild_in number c (folder attr fid title sub es) =
      let inner = rebuild_fav number sub in
      let kept = rebuild_in (inner.0 + 1) (more_folders c) es in
      let left_out = rebuild_in number c es in
      if valid_item attr
      then record kept {
        entries = folder attr (more_folders c).folder_id title inner.1 kept.entries;
      }
      else left_out

-- `fav_cleanup`
unfoldable pub fav_cleanup : ℕ → Fav → ℕ × Fav
fav_cleanup number f = if needs_rebuild f then rebuild_fav number f else (number, f)

abbrev pub le16 : ℕ → List ℕ
le16 n = n % 256 ∷ n / 256 % 256 ∷ []

abbrev pub le32 : ℕ → List ℕ
le32 n = n % 256 ∷ n / 256 % 256 ∷ n / 65536 % 256 ∷ n / 16777216 % 256 ∷ []

-- `fwrite` of a `fav_board_t`, whose padding is zero.
abbrev pub board_bytes : ℕ → ℕ → ℕ → List ℕ
board_bytes bid lastvisit brd_attr = le32 bid ++ (le32 lastvisit ++ (brd_attr ∷ 0 ∷ 0 ∷ 0 ∷ []))

-- The first loop of `write_favrec`, over `n` entries.
unfoldable pub write_entries : ℕ → Entries → List ℕ
write_entries zero es = []
write_entries (suc n) no_more = []
write_entries (suc n) (board attr bid lastvisit brd_attr es) =
    1 ∷ attr ∷ (board_bytes bid lastvisit brd_attr ++ write_entries n es)
write_entries (suc n) (line attr lid es) = 3 ∷ attr ∷ lid ∷ write_entries n es
write_entries (suc n) (folder attr fid title sub es) =
    2 ∷ attr ∷ fid ∷ (title ++ write_entries n es)

-- `write_favrec`, and its second loop.
unfoldable mutual
  pub write_favrec : Fav → List ℕ
  write_favrec (fav c es) =
      le16 c.n_boards
      ++ (c.n_lines
          ∷ c.n_folders
          ∷ (write_entries (get_data_number c) es ++ write_subs (get_data_number c) es))

  pub write_subs : ℕ → Entries → List ℕ
  write_subs zero es = []
  write_subs (suc n) no_more = []
  write_subs (suc n) (board attr bid lastvisit brd_attr es) = write_subs n es
  write_subs (suc n) (line attr lid es) = write_subs n es
  write_subs (suc n) (folder attr fid title sub es) = write_favrec sub ++ write_subs n es

-- BTLEN + 1
abbrev pub title_size : ℕ
title_size = 49

abbrev pub word16 : List ℕ → ℕ → ℕ
word16 bs o = at bs o + 256 * at bs (o + 1)

abbrev pub word32 : List ℕ → ℕ → ℕ
word32 bs o = at bs o + 256 * at bs (o + 1) + 65536 * at bs (o + 2) + 16777216 * at bs (o + 3)

abbrev pub unread : Fav
unread =
    fav
      (record {
        n_allocs = 0;
        n_boards = 0;
        n_lines = 0;
        n_folders = 0;
        line_id = 0;
        folder_id = 0;
      })
      no_more

-- The first loop of `read_favrec`; what is missing at the end of the file stays zero. -1 is `none`.
unfoldable pub read_entries : ℕ → List ℕ → Option (Entries × List ℕ)
read_entries zero bs = some (no_more, bs)
read_entries (suc n) bs =
    let type = at bs 0 in
    let attr = at bs 1 in
    let p = drop 2 bs in
    if type == 1
    then (read_entries n (drop 12 p) >>= λ r.
        some (board attr (word32 p 0) (word32 p 4) (at p 8) r.0, r.1))
    else if type == 3
    then (read_entries n (drop 1 p) >>= λ r. some (line attr (at p 0) r.0, r.1))
    else if type == 2
    then (read_entries n (drop 49 (drop 1 p)) >>= λ r.
        some (folder attr (at p 0) (read_at (drop 1 p) 0 title_size) unread r.0, r.1))
    else none

pub record Subs : Type 0 where
  pub number : ℕ
  pub entries : Entries
  pub line_id : ℕ
  pub folder_id : ℕ
  pub rest : List ℕ

-- Its second loop, with `fav_number` and the ids given out so far.
unfoldable pub read_subs :
    (ℕ → List ℕ → Option (ℕ × Fav × List ℕ)) → ℕ → ℕ → ℕ → Entries → List ℕ → Option Subs
read_subs read number lid fid no_more bs =
    some (record { number = number; entries = no_more; line_id = lid; folder_id = fid; rest = bs })
read_subs read number lid fid (board attr bid lastvisit brd_attr es) bs =
    read_subs read number lid fid es bs >>= λ r.
    some (record r { entries = board attr bid lastvisit brd_attr r.entries })
read_subs read number lid fid (line attr old es) bs =
    read_subs read number ((lid + 1) % 256) fid es bs >>= λ r.
    some (record r { entries = line attr ((lid + 1) % 256) r.entries })
read_subs read number lid fid (folder attr old title sub es) bs = read number bs >>= λ s.
    read_subs read s.0 lid ((fid + 1) % 256) es s.2 >>= λ r.
    some (record r { entries = folder attr ((fid + 1) % 256) title s.1 r.entries })

-- `read_favrec`, with `fav_number` in front, on fuel for the depth of the folders. The counts of the
-- header are read as they are below 2^15 and 2^7; above, they are negative for the code.
unfoldable pub read_favrec : ℕ → ℕ → List ℕ → Option (ℕ × Fav × List ℕ)
read_favrec zero number bs = none
read_favrec (suc fuel) number bs =
    let boards = word16 bs 0 in
    let lines = at bs 2 in
    let folders = at bs 3 in
    let n = boards + lines + folders in
    read_entries n (drop 4 bs) >>= λ e.
    read_subs (read_favrec fuel) (number + n) 0 0 e.0 e.1 >>= λ r. some (
      r.number,
      fav
          (record {
            n_allocs = n + fav_pre_alloc;
            n_boards = boards;
            n_lines = lines;
            n_folders = folders;
            line_id = r.line_id;
            folder_id = r.folder_id;
          })
          r.entries,
      r.rest,
    )

abbrev pub fav_version : ℕ
fav_version = 3363

-- The file that `fav_save` writes where something has changed, after the clean-up.
unfoldable pub fav_save : ℕ → Fav → List ℕ
fav_save number f = le16 fav_version ++ write_favrec (fav_cleanup number f).1

-- `fav_load` of a file that is there and opens: `fav_number` and the tree.
unfoldable pub fav_load : ℕ → List ℕ → ℕ × Fav
fav_load fuel bs = elim (read_favrec fuel 0 (drop 2 bs)) [
  | some (number, f, rest) ↦ (number, f)
  | none ↦ (0, unread)
]
