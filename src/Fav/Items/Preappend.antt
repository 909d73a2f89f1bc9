-- ===== src/Fav/Items/Preappend.antt =====
-- What `fav_preappend` does to the counters.
use brs_bbs.Prelude.{
  ℕ, ◌+◌, ◌≤◌, ◌<◌, ◌≡◌, refl, inl, inr, Bool, true, false, Option, none, some, arith, ltb, leb,
  Bool-cases, replicate,
}
use brs_bbs.Fav.{
  Counts, Fav, fav, Entries, no_more, board, line, folder, max_fav, max_line, max_folder,
  title_size, more_lines, more_folders,
}
use brs_bbs.Fav.Tree.{boards_of, lines_of, folders_of, IsCounted, AreCounted, total, total_in}
use brs_bbs.Fav.Items.{
  put_behind, data_tail, enlarge_if_full, new_folder, preappend_board, preappend_line,
  preappend_folder,
}

record Behind (es new es' : Entries) : Type 0 where
  boards : boards_of es' ≡ boards_of es + boards_of new
  lines : lines_of es' ≡ lines_of es + lines_of new
  folders : folders_of es' ≡ folders_of es + folders_of new
  totals : total_in es' ≡ total_in es + total_in new
  counted : AreCounted es'

put_behind-Behind :
    (es new : Entries) → AreCounted es → AreCounted new → Behind es new (put_behind es new)
unfolding put_behind
put_behind-Behind no_more new a b = record {
  boards = omega arith;
  lines = omega arith;
  folders = omega arith;
  totals = omega arith;
  counted = b;
}
put_behind-Behind (board attr bid lastvisit brd_attr es) new a b =
    let r = put_behind-Behind es new a b in
    record {
      boards = omega (arith, r.boards);
      lines = r.lines;
      folders = r.folders;
      totals = r.totals;
      counted = r.counted;
    }
put_behind-Behind (line attr lid es) new a b =
    let r = put_behind-Behind es new a b in
    record {
      boards = r.boards;
      lines = omega (arith, r.lines);
      folders = r.folders;
      totals = r.totals;
      counted = r.counted;
    }
put_behind-Behind (folder attr fid title sub es) new (s, a) b =
    let r = put_behind-Behind es new a b in
    record {
      boards = r.boards;
      lines = r.lines;
      folders = omega (arith, r.folders);
      totals = omega (arith, r.totals);
      counted = (s, r.counted);
    }

-- What adding an entry returns: nothing exactly if there is no room, else one entry more, counted in
-- the folder and in the whole.
abbrev pub Adds : Bool → ℕ → Fav → Option (ℕ × Fav) → Type 0
Adds full number f none = full ≡ true
Adds full number f (some (number', f')) =
    (full ≡ false)
    × (number' ≡ number + 1)
    × (number' ≤ max_fav)
    × IsCounted f'
    × (total f' ≡ total f + 1)

-- More room changes no counter.
enlarge_if_full-same :
    (c : Counts) (es : Entries)
    → let c' = enlarge_if_full c es in
      (c'.n_boards ≡ c.n_boards) × (c'.n_lines ≡ c.n_lines) × (c'.n_folders ≡ c.n_folders)
enlarge_if_full-same c es = elim (Bool-cases (ltb (data_tail es) c.n_allocs)) [
  | inl room ↦ rw room (refl, refl, refl)
  | inr full ↦ rw full (refl, refl, refl)
]

abbrev pub lines_in : Fav → ℕ
lines_in (fav c es) = c.n_lines

abbrev pub folders_in : Fav → ℕ
folders_in (fav c es) = c.n_folders

pub preappend_board-Adds :
    (number : ℕ) (f : Fav) (bid : ℕ)
    → IsCounted f
    → Adds (leb max_fav number) number f (preappend_board number f bid)
unfolding preappend_board
preappend_board-Adds number (fav c es) bid (b, l, f, ml, mf, a) =
    let r = put_behind-Behind es (board 1 bid 0 0 no_more) a tt in
    let (eb, el, ef) = enlarge_if_full-same c es in
    elim (Bool-cases (leb max_fav number)) [
      | inl full ↦ rw full refl
      | inr room ↦ rw room (
        refl,
        refl,
        ground arith,
        (
          omega (arith, eb, b, r.boards),
          omega (arith, el, l, r.lines),
          omega (arith, ef, f, r.folders),
          omega (arith, ml, r.lines),
          omega (arith, mf, r.folders),
          r.counted,
        ),
        omega (arith, eb, el, ef, r.totals),
      )
    ]

pub preappend_line-Adds :
    (number : ℕ) (f : Fav)
    → IsCounted f
    → lines_in f < max_line
    → Adds (leb max_fav number) number f (preappend_line number f)
unfolding preappend_line
preappend_line-Adds number (fav c es) (b, l, f, ml, mf, a) few =
    let new = line 1 (more_lines (enlarge_if_full c es)).line_id no_more in
    let r = put_behind-Behind es new a tt in
    let (eb, el, ef) = enlarge_if_full-same c es in
    elim (Bool-cases (leb max_fav number)) [
      | inl full ↦ rw full refl
      | inr room ↦ rw room (
        refl,
        refl,
        ground arith,
        (
          omega (arith, eb, b, r.boards),
          omega (arith, el, l, r.lines, few),
          omega (arith, ef, f, r.folders),
          omega (arith, few, l, r.lines),
          omega (arith, mf, r.folders),
          r.counted,
        ),
        omega (arith, eb, el, ef, r.totals, few),
      )
    ]

new_folder-IsCounted : IsCounted new_folder
new_folder-IsCounted = (refl, refl, refl, omega arith, omega arith, tt)

pub preappend_folder-Adds :
    (number : ℕ) (f : Fav)
    → IsCounted f
    → folders_in f < max_folder
    → Adds (leb max_fav number) number f (preappend_folder number f)
unfolding preappend_folder
preappend_folder-Adds number (fav c es) (b, l, f, ml, mf, a) few =
    let id = (more_folders (enlarge_if_full c es)).folder_id in
    let new = folder 1 id (replicate title_size 0) new_folder no_more in
    let r = put_behind-Behind es new a (λ v. new_folder-IsCounted, tt) in
    let (eb, el, ef) = enlarge_if_full-same c es in
    elim (Bool-cases (leb max_fav number)) [
      | inl full ↦ rw full refl
      | inr room ↦ rw room (
        refl,
        refl,
        ground arith,
        (
          omega (arith, eb, b, r.boards),
          omega (arith, el, l, r.lines),
          omega (arith, ef, f, r.folders, few),
          omega (arith, ml, r.lines),
          omega (arith, few, f, r.folders),
          r.counted,
        ),
        omega (arith, eb, el, ef, r.totals, few),
      )
    ]
