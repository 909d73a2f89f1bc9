-- ===== src/Fav/Items.antt =====
-- Adding, finding and removing entries of the folder in use (mbbsd/fav.c).
pub mod Preappend
pub mod Counted
pub mod Pick
pub mod Removed
use brs_bbs.Prelude.{
  ℕ, zero, suc, ◌+◌, ◌-◌, ◌*◌, ◌/◌, ◌%◌, ◌^◌, ◌≤◌, ◌<◌, min, ◌≡◌, refl, sym, ap, ap₂, ◌∙◌, subst,
  ◌≢◌, ◌↔◌, ◌⊎◌, inl, inr, Bool, true, false, not, ◌&&◌, ◌||◌, Option, none, some, List, [], ◌∷◌,
  ◌++◌, append-nil, append_assoc, map, flatten, arith, ltb, leb, ◌==◌, if◌then◌else◌, ltb→lt,
  lt→ltb, leb→le, ==_iff, tests, Bool-cases, Option-cases, List-cases, ◌>>=◌, take-whole,
  drop-whole, take-append_le, take-append_past, drop-append_past, drop-drop, take-take,
  drop-append_le, drop-take, within, length, get_elem?, set, length-append, length-set, take, drop,
  replicate, length-take, length-drop, take-append-drop, length-replicate,
}
use brs_bbs.Fav.{
  Counts, Fav, fav, Entries, no_more, board, line, folder, valid_item, max_fav, max_line,
  max_folder, fav_pre_alloc, more_boards, more_lines, more_folders, title_size,
}

-- The types of entries.
pub data FavType : Type 0 where
  type_board : FavType
  type_folder : FavType
  type_line : FavType

-- The entries up to DataTail.
unfoldable pub data_tail : Entries → ℕ
data_tail no_more = 0
data_tail (board attr bid lastvisit brd_attr es) = suc (data_tail es)
data_tail (line attr lid es) = suc (data_tail es)
data_tail (folder attr fid title sub es) = suc (data_tail es)

abbrev pub is_board : FavType → Bool
is_board type_board = true
is_board type_folder = false
is_board type_line = false

abbrev pub is_line : FavType → Bool
is_line type_board = false
is_line type_folder = false
is_line type_line = true

abbrev pub is_folder : FavType → Bool
is_folder type_board = false
is_folder type_folder = true
is_folder type_line = false

abbrev pub one_later : Option ℕ → Option ℕ
one_later none = none
one_later (some i) = some (suc i)

-- `get_fav_item`: the place of the first entry of the type with the id that was not removed.
unfoldable pub get_fav_item : ℕ → FavType → Entries → Option ℕ
get_fav_item id type no_more = none
get_fav_item id type (board attr bid lastvisit brd_attr es) =
    let rest = one_later (get_fav_item id type es) in
    if valid_item attr && is_board type && (bid == id) then some 0 else rest
get_fav_item id type (line attr lid es) =
    let rest = one_later (get_fav_item id type es) in
    if valid_item attr && is_line type && (lid == id) then some 0 else rest
get_fav_item id type (folder attr fid title sub es) =
    let rest = one_later (get_fav_item id type es) in
    if valid_item attr && is_folder type && (fid == id) then some 0 else rest

-- `fav_free_item`: no attribute is left of the entry at a place.
unfoldable pub free_item : ℕ → Entries → Entries
free_item i no_more = no_more
free_item zero (board attr bid lastvisit brd_attr es) = board 0 bid lastvisit brd_attr es
free_item zero (line attr lid es) = line 0 lid es
free_item zero (folder attr fid title sub es) = folder 0 fid title sub es
free_item (suc i) (board attr bid lastvisit brd_attr es) =
    board attr bid lastvisit brd_attr (free_item i es)
free_item (suc i) (line attr lid es) = line attr lid (free_item i es)
free_item (suc i) (folder attr fid title sub es) = folder attr fid title sub (free_item i es)

-- `fav_decrease` of an entry of the type.
abbrev pub fewer : FavType → Counts → Counts
fewer type_board c = record c { n_boards = c.n_boards - 1 }
fewer type_folder c = record c { n_folders = c.n_folders - 1 }
fewer type_line c = record c { n_lines = c.n_lines - 1 }

-- `fav_number--`, of the 32 bits of an `int`.
abbrev pub one_less : ℕ → ℕ
one_less number = if number == 0 then 2 ^ 32 - 1 else number - 1

-- `fav_remove_item`, with `fav_number` in front.
unfoldable pub fav_remove_item : ℕ → Fav → ℕ → FavType → ℕ × Fav
fav_remove_item number (fav c es) id type = elim (get_fav_item id type es) [
  | none ↦ (number, fav c es)
  | some i ↦ (one_less number, fav (fewer type c) (free_item i es))
]

-- An entry behind the others.
unfoldable pub put_behind : Entries → Entries → Entries
put_behind no_more new = new
put_behind (board attr bid lastvisit brd_attr es) new =
    board attr bid lastvisit brd_attr (put_behind es new)
put_behind (line attr lid es) new = line attr lid (put_behind es new)
put_behind (folder attr fid title sub es) new = folder attr fid title sub (put_behind es new)

-- `enlarge_if_full`, where the favourites have room.
abbrev pub enlarge_if_full : Counts → Entries → Counts
enlarge_if_full c es =
    if ltb (data_tail es) c.n_allocs then c else record c { n_allocs = c.n_allocs + fav_pre_alloc }

-- `alloc_folder_item`
abbrev pub new_folder : Fav
new_folder =
    fav
      (record {
        n_allocs = fav_pre_alloc;
        n_boards = 0;
        n_lines = 0;
        n_folders = 0;
        line_id = 0;
        folder_id = 0;
      })
      no_more

-- `fav_preappend` of an entry of each type; NULL is `none`.
unfoldable pub preappend_board : ℕ → Fav → ℕ → Option (ℕ × Fav)
preappend_board number (fav c es) bid =
    if leb max_fav number
    then none
    else some (
      number + 1,
      fav (more_boards (enlarge_if_full c es)) (put_behind es (board 1 bid 0 0 no_more)),
    )

unfoldable pub preappend_line : ℕ → Fav → Option (ℕ × Fav)
preappend_line number (fav c es) =
    let c' = more_lines (enlarge_if_full c es) in
    if leb max_fav number
    then none
    else some (number + 1, fav c' (put_behind es (line 1 c'.line_id no_more)))

unfoldable pub preappend_folder : ℕ → Fav → Option (ℕ × Fav)
preappend_folder number (fav c es) =
    let c' = more_folders (enlarge_if_full c es) in
    if leb max_fav number
    then none
    else some (
      number + 1,
      fav c' (put_behind es (folder 1 c'.folder_id (replicate title_size 0) new_folder no_more)),
    )

-- `fav_add_board`, which leaves a board that is there as it is; `none` is the assertion of `getboard`
-- on `bid`, whose limit MAX_BOARD the configuration sets.
unfoldable pub fav_add_board : ℕ → ℕ → Fav → ℕ → Option (Option (ℕ × Fav))
fav_add_board max_board number (fav c es) bid =
    if (bid == 0) || ltb max_board bid
    then none
    else some (elim (get_fav_item bid type_board es) [
      | some i ↦ some (number, fav c es)
      | none ↦ preappend_board number (fav c es) bid
    ])

unfoldable pub fav_add_line : ℕ → Fav → Option (ℕ × Fav)
fav_add_line number (fav c es) =
    if leb max_line c.n_lines then none else preappend_line number (fav c es)

-- `stack_full` is whether the folder in use is as deep as folders go.
unfoldable pub fav_add_folder : Bool → ℕ → Fav → Option (ℕ × Fav)
fav_add_folder stack_full number (fav c es) =
    if stack_full || leb max_folder c.n_folders then none else preappend_folder number (fav c es)
