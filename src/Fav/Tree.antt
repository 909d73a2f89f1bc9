-- ===== src/Fav/Tree.antt =====
-- What the counters of a folder should say, and what its user sees.
use brs_bbs.Prelude.{ℕ, ◌+◌, ◌≤◌, ◌≡◌, Bool, true, false, if◌then◌else◌}
use brs_bbs.Fav.{
  Counts, Fav, fav, Entries, no_more, board, line, folder, valid_item, get_data_number, max_line,
  max_folder,
}

abbrev pub one_if : Bool → ℕ
one_if true = 1
one_if false = 0

-- The entries of a folder that were not removed, by type.
abbrev pub boards_of : Entries → ℕ
boards_of no_more = 0
boards_of (board attr bid lastvisit brd_attr es) = one_if (valid_item attr) + boards_of es
boards_of (line attr lid es) = boards_of es
boards_of (folder attr fid title sub es) = boards_of es

abbrev pub lines_of : Entries → ℕ
lines_of no_more = 0
lines_of (board attr bid lastvisit brd_attr es) = lines_of es
lines_of (line attr lid es) = one_if (valid_item attr) + lines_of es
lines_of (folder attr fid title sub es) = lines_of es

abbrev pub folders_of : Entries → ℕ
folders_of no_more = 0
folders_of (board attr bid lastvisit brd_attr es) = folders_of es
folders_of (line attr lid es) = folders_of es
folders_of (folder attr fid title sub es) = one_if (valid_item attr) + folders_of es

-- The counters say what is there, in every folder that was not removed, and keep to the limits.
abbrev mutual
  pub IsCounted : Fav → Type 0
  IsCounted (fav c es) =
      (c.n_boards ≡ boards_of es)
      × (c.n_lines ≡ lines_of es)
      × (c.n_folders ≡ folders_of es)
      × (lines_of es ≤ max_line)
      × (folders_of es ≤ max_folder)
      × AreCounted es

  pub AreCounted : Entries → Type 0
  AreCounted no_more = Unit {0}
  AreCounted (board attr bid lastvisit brd_attr es) = AreCounted es
  AreCounted (line attr lid es) = AreCounted es
  AreCounted (folder attr fid title sub es) =
      ((valid_item attr ≡ true) → IsCounted sub) × AreCounted es

-- The entries of the tree, as the counters have them.
abbrev mutual
  pub total : Fav → ℕ
  total (fav c es) = get_data_number c + total_in es

  pub total_in : Entries → ℕ
  total_in no_more = 0
  total_in (board attr bid lastvisit brd_attr es) = total_in es
  total_in (line attr lid es) = total_in es
  total_in (folder attr fid title sub es) = (if valid_item attr then total sub else 0) + total_in es

-- Nothing is removed, and the ids of lines and folders count up from the given ones.
abbrev mutual
  pub IsClean : Fav → Type 0
  IsClean (fav c es) = (c.line_id ≡ lines_of es) × (c.folder_id ≡ folders_of es) × AreClean 0 0 es

  pub AreClean : ℕ → ℕ → Entries → Type 0
  AreClean l f no_more = Unit {0}
  AreClean l f (board attr bid lastvisit brd_attr es) = (valid_item attr ≡ true) × AreClean l f es
  AreClean l f (line attr lid es) = (valid_item attr ≡ true) × (lid ≡ l + 1) × AreClean (l + 1) f es
  AreClean l f (folder attr fid title sub es) =
      (valid_item attr ≡ true) × (fid ≡ f + 1) × IsClean sub × AreClean l (f + 1) es

abbrev pub zeros : Counts
zeros = record {
  n_allocs = 0;
  n_boards = 0;
  n_lines = 0;
  n_folders = 0;
  line_id = 0;
  folder_id = 0;
}

-- What the user sees: the entries that were not removed, in order, without the ids and counters.
abbrev mutual
  pub visible : Fav → Entries
  visible (fav c es) = visible_in es

  pub visible_in : Entries → Entries
  visible_in no_more = no_more
  visible_in (board attr bid lastvisit brd_attr es) =
      let rest = visible_in es in
      if valid_item attr then board attr bid lastvisit brd_attr rest else rest
  visible_in (line attr lid es) =
      let rest = visible_in es in if valid_item attr then line attr 0 rest else rest
  visible_in (folder attr fid title sub es) =
      let rest = visible_in es in
      let inner = visible sub in
      if valid_item attr then folder attr 0 title (fav zeros inner) rest else rest

abbrev pub entries_of : Fav → Entries
entries_of (fav c es) = es
