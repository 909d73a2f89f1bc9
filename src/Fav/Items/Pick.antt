-- ===== src/Fav/Items/Pick.antt =====
-- The first entry of a type and with an id, apart from the loop that looks for it.
use brs_bbs.Prelude.{ℕ, zero, suc, ◌<◌, ◌≡◌, Bool, true, false, ◌&&◌, List, arith, ◌==◌}
use brs_bbs.Fav.{Fav, Entries, no_more, board, line, folder, valid_item}
use brs_bbs.Fav.Items.{FavType, type_board, type_folder, type_line, is_board, is_line, is_folder}

-- The entry at a place, alone.
abbrev pub entry_at : Entries → ℕ → Entries
entry_at no_more j = no_more
entry_at (board attr bid lastvisit brd_attr es) zero = board attr bid lastvisit brd_attr no_more
entry_at (board attr bid lastvisit brd_attr es) (suc j) = entry_at es j
entry_at (line attr lid es) zero = line attr lid no_more
entry_at (line attr lid es) (suc j) = entry_at es j
entry_at (folder attr fid title sub es) zero = folder attr fid title sub no_more
entry_at (folder attr fid title sub es) (suc j) = entry_at es j

-- Whether an entry was not removed, and is of the type and has the id.
abbrev pub is_item : ℕ → FavType → Entries → Bool
is_item id type no_more = false
is_item id type_board (board attr bid lastvisit brd_attr es) = valid_item attr && (bid == id)
is_item id type_board (line attr lid es) = false
is_item id type_board (folder attr fid title sub es) = false
is_item id type_line (board attr bid lastvisit brd_attr es) = false
is_item id type_line (line attr lid es) = valid_item attr && (lid == id)
is_item id type_line (folder attr fid title sub es) = false
is_item id type_folder (board attr bid lastvisit brd_attr es) = false
is_item id type_folder (line attr lid es) = false
is_item id type_folder (folder attr fid title sub es) = valid_item attr && (fid == id)

abbrev pub without_attr : Entries → Entries
without_attr no_more = no_more
without_attr (board attr bid lastvisit brd_attr es) = board 0 bid lastvisit brd_attr es
without_attr (line attr lid es) = line 0 lid es
without_attr (folder attr fid title sub es) = folder 0 fid title sub es

-- The first item loses its attributes, and every other entry is as before.
pub record Picks (id : ℕ) (type : FavType) (i : ℕ) (old new : ℕ → Entries) : Type 0 where
  pub chosen : is_item id type (old i) ≡ true
  pub first : (j : ℕ) → j < i → is_item id type (old j) ≡ false
  pub emptied : new i ≡ without_attr (old i)
  pub others : (j : ℕ) → (j == i) ≡ false → new j ≡ old j

pub Picks-here :
    (id : ℕ) (type : FavType) (old new : ℕ → Entries)
    → is_item id type (old 0) ≡ true
    → new 0 ≡ without_attr (old 0)
    → ((j : ℕ) → new (suc j) ≡ old (suc j))
    → Picks id type 0 old new
Picks-here id type old new e h k = record {
  chosen = e;
  first = λ j l. absurd (omega arith);
  emptied = h;
  others = others;
}
  where
    others : (j : ℕ) → (j == 0) ≡ false → new j ≡ old j
    others zero n = absurd (ground arith)
    others (suc j) n = k j

pub Picks-later :
    (id : ℕ) (type : FavType) (i : ℕ) (old new : ℕ → Entries)
    → is_item id type (old 0) ≡ false
    → new 0 ≡ old 0
    → Picks id type i (λ j. old (suc j)) (λ j. new (suc j))
    → Picks id type (suc i) old new
Picks-later id type i old new e h p = record {
  chosen = p.chosen;
  first = first;
  emptied = p.emptied;
  others = others;
}
  where
    first : (j : ℕ) → j < suc i → is_item id type (old j) ≡ false
    first zero l = e
    first (suc j) l = p.first j (omega arith)

    others : (j : ℕ) → (j == suc i) ≡ false → new j ≡ old j
    others zero n = h
    others (suc j) n = p.others j (ground arith)

abbrev pub HasNone : ℕ → FavType → (ℕ → Entries) → Type 0
HasNone id type old = (j : ℕ) → is_item id type (old j) ≡ false

pub HasNone-later :
    (id : ℕ) (type : FavType) (old : ℕ → Entries)
    → is_item id type (old 0) ≡ false
    → HasNone id type (λ j. old (suc j))
    → HasNone id type old
HasNone-later id type old e h zero = e
HasNone-later id type old e h (suc j) = h j

pub is_item-board :
    (id : ℕ) (type : FavType) (attr bid lastvisit brd_attr : ℕ)
    → is_item id type (board attr bid lastvisit brd_attr no_more)
      ≡ (valid_item attr && is_board type && (bid == id))
is_item-board id type_board attr bid lastvisit brd_attr = ground arith
is_item-board id type_folder attr bid lastvisit brd_attr = ground arith
is_item-board id type_line attr bid lastvisit brd_attr = ground arith

pub is_item-line :
    (id : ℕ) (type : FavType) (attr lid : ℕ)
    → is_item id type (line attr lid no_more) ≡ (valid_item attr && is_line type && (lid == id))
is_item-line id type_board attr lid = ground arith
is_item-line id type_folder attr lid = ground arith
is_item-line id type_line attr lid = ground arith

pub is_item-folder :
    (id : ℕ) (type : FavType) (attr fid : ℕ) (title : List ℕ) (sub : Fav)
    → is_item id type (folder attr fid title sub no_more)
      ≡ (valid_item attr && is_folder type && (fid == id))
is_item-folder id type_board attr fid title sub = ground arith
is_item-folder id type_folder attr fid title sub = ground arith
is_item-folder id type_line attr fid title sub = ground arith
