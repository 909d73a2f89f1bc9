-- ===== src/Fav/Items/Removed.antt =====
-- Removing an entry of the folder in use, and what `fav_number` loses sight of.
use brs_bbs.Prelude.{
  ℕ, zero, suc, ◌+◌, ◌-◌, ◌≤◌, ◌≡◌, refl, sym, ap, ◌∙◌, subst, ◌⊎◌, inl, inr, Bool, true, ◌&&◌,
  none, some, arith, ◌==◌, Bool-cases,
}
use brs_bbs.Fav.{Counts, Fav, fav, Entries, no_more, board, line, folder, valid_item}
use brs_bbs.Fav.Items.Pick.{
  entry_at, Picks, HasNone, Picks-here, Picks-later, HasNone-later, is_item-board, is_item-line,
  is_item-folder,
}
use brs_bbs.Fav.Tree.{
  one_if, boards_of, lines_of, folders_of, IsCounted, AreCounted, total, total_in, entries_of,
}
use brs_bbs.Fav.Items.{
  FavType, type_board, type_folder, type_line, is_board, is_line, is_folder, get_fav_item,
  free_item, fewer, fav_remove_item, one_less,
}

-- What is in the folder at a place, if it is one.
abbrev pub inside : ℕ → Entries → ℕ
inside i no_more = 0
inside zero (board attr bid lastvisit brd_attr es) = 0
inside zero (line attr lid es) = 0
inside zero (folder attr fid title sub es) = total sub
inside (suc i) (board attr bid lastvisit brd_attr es) = inside i es
inside (suc i) (line attr lid es) = inside i es
inside (suc i) (folder attr fid title sub es) = inside i es

record Freed (type : FavType) (i : ℕ) (es es' : Entries) : Type 0 where
  boards : boards_of es' + one_if (is_board type) ≡ boards_of es
  lines : lines_of es' + one_if (is_line type) ≡ lines_of es
  folders : folders_of es' + one_if (is_folder type) ≡ folders_of es
  totals : total_in es' + inside i es ≡ total_in es
  counted : AreCounted es'

abbrev Found : ℕ → FavType → Entries → Type 0
Found id type es =
    ((get_fav_item id type es ≡ none) × HasNone id type (entry_at es))
    ⊎ ((i : ℕ) × (get_fav_item id type es ≡ some i)
        × Freed type i es (free_item i es)
        × Picks id type i (entry_at es) (entry_at (free_item i es)))

-- An entry is of one type.
only_board :
    (type : FavType)
    → is_board type ≡ true
    → (one_if (is_line type) ≡ 0) × (one_if (is_folder type) ≡ 0)
only_board type_board e = (refl, refl)
only_board type_folder e = ground arith
only_board type_line e = ground arith

only_line :
    (type : FavType)
    → is_line type ≡ true
    → (one_if (is_board type) ≡ 0) × (one_if (is_folder type) ≡ 0)
only_line type_board e = ground arith
only_line type_folder e = ground arith
only_line type_line e = (refl, refl)

only_folder :
    (type : FavType)
    → is_folder type ≡ true
    → (one_if (is_board type) ≡ 0) × (one_if (is_line type) ≡ 0)
only_folder type_board e = ground arith
only_folder type_folder e = (refl, refl)
only_folder type_line e = ground arith

-- The test of the loop.
both : (v t e : Bool) → (v && t && e) ≡ true → (v ≡ true) × (t ≡ true)
both v t e h = (ground arith, ground arith)

get_fav_item-Found : (id : ℕ) (type : FavType) (es : Entries) → AreCounted es → Found id type es
unfolding get_fav_item free_item
get_fav_item-Found id type no_more a = inl (refl, λ j. refl)
get_fav_item-Found id type (board attr bid lastvisit brd_attr es) a =
    elim (Bool-cases (valid_item attr && is_board type && (bid == id))) [
      | inl t ↦
          let (v, of_type) = both (valid_item attr) (is_board type) (bid == id) t in
          let (other, other') = only_board type of_type in
          inr (
            0,
            rw t refl,
            record {
              boards = omega (arith, ap one_if v, ap one_if of_type);
              lines = omega (arith, other);
              folders = omega (arith, other');
              totals = omega arith;
              counted = a;
            },
            Picks-here id type (entry_at (board attr bid lastvisit brd_attr es))
                (entry_at (free_item 0 (board attr bid lastvisit brd_attr es)))
                (is_item-board id type attr bid lastvisit brd_attr ∙ t) refl (λ j. refl),
          )
      | inr t ↦ elim (get_fav_item-Found id type es a) [
        | inl (none_later, nowhere) ↦ inl (
          rw (t, none_later) refl,
          HasNone-later id type (entry_at (board attr bid lastvisit brd_attr es))
              (is_item-board id type attr bid lastvisit brd_attr ∙ t) nowhere,
        )
        | inr (i, e, r, picks) ↦ inr (
          suc i,
          rw (t, e) refl,
          record {
            boards = omega (arith, r.boards);
            lines = r.lines;
            folders = r.folders;
            totals = r.totals;
            counted = r.counted;
          },
          Picks-later id type i (entry_at (board attr bid lastvisit brd_attr es))
              (entry_at (free_item (suc i) (board attr bid lastvisit brd_attr es)))
              (is_item-board id type attr bid lastvisit brd_attr ∙ t) refl picks,
        )
      ]
    ]
get_fav_item-Found id type (line attr lid es) a =
    elim (Bool-cases (valid_item attr && is_line type && (lid == id))) [
      | inl t ↦
          let (v, of_type) = both (valid_item attr) (is_line type) (lid == id) t in
          let (other, other') = only_line type of_type in
          inr (
            0,
            rw t refl,
            record {
              boards = omega (arith, other);
              lines = omega (arith, ap one_if v, ap one_if of_type);
              folders = omega (arith, other');
              totals = omega arith;
              counted = a;
            },
            Picks-here id type (entry_at (line attr lid es))
                (entry_at (free_item 0 (line attr lid es))) (is_item-line id type attr lid ∙ t) refl
                (λ j. refl),
          )
      | inr t ↦ elim (get_fav_item-Found id type es a) [
        | inl (none_later, nowhere) ↦ inl (
          rw (t, none_later) refl,
          HasNone-later id type (entry_at (line attr lid es)) (is_item-line id type attr lid ∙ t)
              nowhere,
        )
        | inr (i, e, r, picks) ↦ inr (
          suc i,
          rw (t, e) refl,
          record {
            boards = r.boards;
            lines = omega (arith, r.lines);
            folders = r.folders;
            totals = r.totals;
            counted = r.counted;
          },
          Picks-later id type i (entry_at (line attr lid es))
              (entry_at (free_item (suc i) (line attr lid es))) (is_item-line id type attr lid ∙ t)
              refl picks,
        )
      ]
    ]
get_fav_item-Found id type (folder attr fid title sub es) (s, a) =
    elim (Bool-cases (valid_item attr && is_folder type && (fid == id))) [
      | inl t ↦
          let (v, of_type) = both (valid_item attr) (is_folder type) (fid == id) t in
          let (other, other') = only_folder type of_type in
          inr (
            0,
            rw t refl,
            record {
              boards = omega (arith, other);
              lines = omega (arith, other');
              folders = omega (arith, ap one_if v, ap one_if of_type);
              totals = rw v (omega arith);
              counted = (λ w. s v, a);
            },
            Picks-here id type (entry_at (folder attr fid title sub es))
                (entry_at (free_item 0 (folder attr fid title sub es)))
                (is_item-folder id type attr fid title sub ∙ t) refl (λ j. refl),
          )
      | inr t ↦ elim (get_fav_item-Found id type es a) [
        | inl (none_later, nowhere) ↦ inl (
          rw (t, none_later) refl,
          HasNone-later id type (entry_at (folder attr fid title sub es))
              (is_item-folder id type attr fid title sub ∙ t) nowhere,
        )
        | inr (i, e, r, picks) ↦ inr (
          suc i,
          rw (t, e) refl,
          record {
            boards = r.boards;
            lines = r.lines;
            folders = omega (arith, r.folders);
            totals = omega (arith, r.totals);
            counted = (s, r.counted);
          },
          Picks-later id type i (entry_at (folder attr fid title sub es))
              (entry_at (free_item (suc i) (folder attr fid title sub es)))
              (is_item-folder id type attr fid title sub ∙ t) refl picks,
        )
      ]
    ]

fewer-counts :
    (type : FavType) (c : Counts)
    → ((fewer type c).n_boards ≡ c.n_boards - one_if (is_board type))
      × ((fewer type c).n_lines ≡ c.n_lines - one_if (is_line type))
      × ((fewer type c).n_folders ≡ c.n_folders - one_if (is_folder type))
fewer-counts type_board c = (refl, omega arith, omega arith)
fewer-counts type_folder c = (omega arith, omega arith, refl)
fewer-counts type_line c = (omega arith, refl, omega arith)

one_type :
    (type : FavType) → one_if (is_board type) + one_if (is_line type) + one_if (is_folder type) ≡ 1
one_type type_board = refl
one_type type_folder = refl
one_type type_line = refl

-- What is left where the item was at a place.
abbrev pub Gone : ℕ → Counts → Entries → ℕ → FavType → ℕ → ℕ × Fav → Type 0
Gone number c es id type i r =
    Picks id type i (entry_at es) (entry_at (entries_of r.1))
    × (r.0 + 1 ≡ number)
    × IsCounted r.1
    × (total r.1 + 1 + inside i es ≡ total (fav c es))

abbrev pub Removes : ℕ → Counts → Entries → ℕ → FavType → ℕ × Fav → Type 0
Removes number c es id type r =
    (HasNone id type (entry_at es) × (r ≡ (number, fav c es)))
    ⊎ ((i : ℕ) × (Gone number c es id type i r))

-- Removing an item from a folder whose counters are right, where `fav_number` is positive, leaves all
-- as it was if no entry is the item. Else the first that is loses its attributes, and every other
-- entry stays; the counters are right again and `fav_number` is one less, while the tree has lost the
-- entry and, for a folder, all that was in it.
pub fav_remove_item-Removes :
    (number : ℕ) (c : Counts) (es : Entries) (id : ℕ) (type : FavType)
    → IsCounted (fav c es)
    → 1 ≤ number
    → Removes number c es id type (fav_remove_item number (fav c es) id type)
unfolding fav_remove_item
fav_remove_item-Removes number c es id type (b, l, f, ml, mf, a) p =
    elim (get_fav_item-Found id type es a) [
      | inl (absent, nowhere) ↦ inl (nowhere, rw (fav_remove_item, absent) refl)
      | inr (i, there, r, picks) ↦
          let (eb, el, ef) = fewer-counts type c in
          let result : fav_remove_item number (fav c es) id type
              ≡ (one_less number, fav (fewer type c) (free_item i es)) =
            rw (fav_remove_item, there) refl in
          inr (
            i,
            subst (Gone number c es id type i) (sym result) (
              picks,
              ground (arith, p),
              (
                omega (arith, eb, b, r.boards),
                omega (arith, el, l, r.lines),
                omega (arith, ef, f, r.folders),
                omega (arith, ml, r.lines),
                omega (arith, mf, r.folders),
                r.counted,
              ),
              omega (
                arith,
                eb,
                el,
                ef,
                b,
                l,
                f,
                r.boards,
                r.lines,
                r.folders,
                r.totals,
                one_type type,
              ),
            ),
          )
    ]
