-- ===== src/Fav/Items/Counted.antt =====
-- Adding an entry keeps the counters right.
use brs_bbs.Prelude.{
  ℕ, ◌≤◌, ◌<◌, ◌≡◌, refl, subst, ◌⊎◌, inl, inr, Bool, true, false, ◌&&◌, ◌||◌, Option, none, some,
  arith, ltb, leb, ◌==◌, Bool-cases, Option-cases, replicate,
}
use brs_bbs.Fav.{
  Fav, fav, Entries, no_more, board, line, folder, max_fav, max_line, max_folder, title_size,
  more_lines, more_folders, valid_item,
}
use brs_bbs.Fav.Items.Preappend.{
  Adds, lines_in, folders_in, preappend_board-Adds, preappend_line-Adds, preappend_folder-Adds,
}
use brs_bbs.Fav.Tree.{IsCounted, entries_of}
use brs_bbs.Fav.Items.{
  type_board, get_fav_item, put_behind, enlarge_if_full, new_folder, preappend_board,
  preappend_line, preappend_folder, fav_add_board, fav_add_line, fav_add_folder, one_later,
}

-- The entries behind the old ones; a line and a folder have an id of their own.
abbrev pub Grows : (ℕ → Entries) → Fav → Option (ℕ × Fav) → Type 0
Grows new f none = Unit {0}
Grows new f (some (number, f')) = (id : ℕ) × (entries_of f' ≡ put_behind (entries_of f) (new id))

abbrev pub new_board : ℕ → ℕ → Entries
new_board bid id = board 1 bid 0 0 no_more

abbrev pub new_line : ℕ → Entries
new_line id = line 1 id no_more

abbrev pub folder_entry : ℕ → Entries
folder_entry id = folder 1 id (replicate title_size 0) new_folder no_more

preappend-Grows :
    (number : ℕ) (f : Fav) (bid : ℕ)
    → Grows (new_board bid) f (preappend_board number f bid)
      × Grows new_line f (preappend_line number f)
      × Grows folder_entry f (preappend_folder number f)
unfolding preappend_board preappend_line preappend_folder
preappend-Grows number (fav c es) bid = elim (Bool-cases (leb max_fav number)) [
  | inl full ↦ rw full (tt, tt, tt)
  | inr room ↦ rw room (
    (0, refl),
    ((more_lines (enlarge_if_full c es)).line_id, refl),
    ((more_folders (enlarge_if_full c es)).folder_id, refl),
  )
]

-- Whether the board is one of the entries that were not removed.
abbrev pub HasBoard : ℕ → Entries → Type 0
HasBoard bid no_more = ⊥
HasBoard bid (board attr b lastvisit brd_attr es) =
    ((valid_item attr ≡ true) × (b ≡ bid)) ⊎ HasBoard bid es
HasBoard bid (line attr lid es) = HasBoard bid es
HasBoard bid (folder attr fid title sub es) = HasBoard bid es

abbrev Answers : ℕ → Entries → Option ℕ → Type 0
Answers bid es none = HasBoard bid es → ⊥
Answers bid es (some i) = HasBoard bid es

one_later-Answers :
    (bid : ℕ) (es es' : Entries) (o : Option ℕ)
    → (HasBoard bid es → HasBoard bid es')
    → (HasBoard bid es' → HasBoard bid es)
    → Answers bid es o
    → Answers bid es' (one_later o)
one_later-Answers bid es es' none to from a = λ h. a (from h)
one_later-Answers bid es es' (some i) to from a = to a

get_fav_item-Answers : (bid : ℕ) (es : Entries) → Answers bid es (get_fav_item bid type_board es)
unfolding get_fav_item
get_fav_item-Answers bid no_more = λ h. h
get_fav_item-Answers bid (board attr b lastvisit brd_attr es) =
    elim (Bool-cases (valid_item attr && true && (b == bid))) [
      | inl here ↦ rw here (inl (found (valid_item attr) (b == bid) here, same b here))
      | inr no' ↦ rw no' (
          one_later-Answers bid es (board attr b lastvisit brd_attr es)
            (get_fav_item bid type_board es) (λ h. inr h)
            (λ h. elim h [ inl (v, e) ↦ absurd (not_here b v e no') | inr h' ↦ h' ])
            (get_fav_item-Answers bid es))
    ]
  where
    found : (v e : Bool) → (v && true && e) ≡ true → v ≡ true
    found v e h = ground arith

    same : (b : ℕ) → (valid_item attr && true && (b == bid)) ≡ true → b ≡ bid
    same b h = ground (arith, h)

    not_here :
        (b : ℕ)
        → valid_item attr ≡ true
        → b ≡ bid
        → (valid_item attr && true && (b == bid)) ≡ false
        → ⊥
    not_here b v e h = ground (arith, v, e, h)
get_fav_item-Answers bid (line attr lid es) =
    elim (Bool-cases (valid_item attr && false && (lid == bid))) [
      | inl here ↦ absurd (ground (arith, here))
      | inr no' ↦ rw no' (
          one_later-Answers bid es (line attr lid es) (get_fav_item bid type_board es) (λ h. h)
            (λ h. h) (get_fav_item-Answers bid es))
    ]
get_fav_item-Answers bid (folder attr fid title sub es) =
    elim (Bool-cases (valid_item attr && false && (fid == bid))) [
      | inl here ↦ absurd (ground (arith, here))
      | inr no' ↦ rw no' (
          one_later-Answers bid es (folder attr fid title sub es) (get_fav_item bid type_board es)
            (λ h. h) (λ h. h) (get_fav_item-Answers bid es))
    ]

-- What adding a board returns, by whether it is there.
abbrev pub AddsBoard : ℕ → ℕ → ℕ → Fav → Type 0
AddsBoard max_board number bid f =
    (r : Option (ℕ × Fav)) × (fav_add_board max_board number f bid ≡ some r)
    × ((HasBoard bid (entries_of f) × (r ≡ some (number, f)))
        ⊎ ((HasBoard bid (entries_of f) → ⊥)
            × Adds (leb max_fav number) number f r
            × Grows (new_board bid) f r))

fav_add_board-AddsBoard :
    (max_board number : ℕ) (f : Fav) (bid : ℕ)
    → IsCounted f
    → 1 ≤ bid
    → bid ≤ max_board
    → AddsBoard max_board number bid f
unfolding fav_add_board
fav_add_board-AddsBoard max_board number (fav c es) bid ok p q =
    let allowed : ((bid == 0) || ltb max_board bid) ≡ false = ground arith in
    let answer = get_fav_item-Answers bid es in
    elim (Option-cases (get_fav_item bid type_board es)) [
      | inl absent ↦ (
        preappend_board number (fav c es) bid,
        rw (fav_add_board, allowed, absent) refl,
        inr (
          subst (Answers bid es) absent answer,
          preappend_board-Adds number (fav c es) bid ok,
          (preappend-Grows number (fav c es) bid).0,
        ),
      )
      | inr (i, there) ↦ (
        some (number, fav c es),
        rw (fav_add_board, allowed, there) refl,
        inl (subst (Answers bid es) there answer, refl),
      )
    ]

-- Adding to a folder whose counters are right. A board that is in the folder is left there. Else
-- NULL is returned exactly where the favourites are full, or for a line or a folder also where there
-- are as many as allowed in this folder, or for a folder where no deeper one is allowed; else the new
-- entry stands behind the others, there is one entry more in the whole tree and in `fav_number`,
-- which keeps to its limit, and the counters are right.
pub fav_add-Adds :
    (max_board number : ℕ) (f : Fav) (bid : ℕ) (stack_full : Bool)
    → IsCounted f
    → 1 ≤ bid
    → bid ≤ max_board
    → AddsBoard max_board number bid f
      × Adds (leb max_line (lines_in f) || leb max_fav number) number f (fav_add_line number f)
      × Grows new_line f (fav_add_line number f)
      × Adds
          (stack_full || leb max_folder (folders_in f) || leb max_fav number)
          number
          f
          (fav_add_folder stack_full number f)
      × Grows folder_entry f (fav_add_folder stack_full number f)
unfolding fav_add_line fav_add_folder
fav_add-Adds max_board number (fav c es) bid stack_full ok p q =
    let (_, new_l, new_f) = preappend-Grows number (fav c es) bid in
    (
      fav_add_board-AddsBoard max_board number (fav c es) bid ok p q,
      elim (Bool-cases (leb max_line c.n_lines)) [
        | inl full ↦ rw full refl
        | inr room ↦ rw room (preappend_line-Adds number (fav c es) ok (ground arith))
      ],
      elim (Bool-cases (leb max_line c.n_lines)) [
        | inl full ↦ rw full tt
        | inr room ↦ rw room new_l
      ],
      elim (Bool-cases (stack_full || leb max_folder c.n_folders)) [
        | inl full ↦ rw full refl
        | inr room ↦
            rw room (preappend_folder-Adds number (fav c es) ok (few stack_full c.n_folders room))
      ],
      elim (Bool-cases (stack_full || leb max_folder c.n_folders)) [
        | inl full ↦ rw full tt
        | inr room ↦ rw room new_f
      ],
    )
  where
    few : (s : Bool) (n : ℕ) → (s || leb max_folder n) ≡ false → n < max_folder
    few s n h = ground arith
