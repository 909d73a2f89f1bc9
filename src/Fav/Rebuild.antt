-- ===== src/Fav/Rebuild.antt =====
-- `rebuild_fav` drops the removed entries and what the user sees stays as it is.
use brs_bbs.Prelude.{
  ℕ, ◌+◌, ◌-◌, ◌%◌, ◌≤◌, ◌≡◌, refl, ap, ap₂, subst, inl, inr, false, arith, if◌then◌else◌,
  Bool-cases,
}
use brs_bbs.Fav.Tree.{
  one_if, boards_of, lines_of, folders_of, IsCounted, AreCounted, total, total_in, IsClean,
  AreClean, zeros, visible, visible_in,
}
use brs_bbs.Fav.{
  Counts, Fav, fav, Entries, no_more, board, line, folder, valid_item, get_data_number, max_line,
  max_folder, more_boards, more_lines, more_folders, no_counts, needs_rebuild, needs_rebuild_in,
  Rebuilt, rebuild_fav, rebuild_in,
}

-- What the loop makes of the entries `es`, from the counters `c` on.
record Rebuilds (number : ℕ) (c : Counts) (es : Entries) (r : Rebuilt) : Type 0 where
  numbered : r.number ≡ number + boards_of es + lines_of es + folders_of es
  allocs : r.counts.n_allocs ≡ c.n_allocs
  boards : r.counts.n_boards ≡ c.n_boards + boards_of es
  lines : r.counts.n_lines ≡ c.n_lines + lines_of es
  folders : r.counts.n_folders ≡ c.n_folders + folders_of es
  line_ids : r.counts.line_id ≡ c.line_id + lines_of es
  folder_ids : r.counts.folder_id ≡ c.folder_id + folders_of es
  same_boards : boards_of r.entries ≡ boards_of es
  same_lines : lines_of r.entries ≡ lines_of es
  same_folders : folders_of r.entries ≡ folders_of es
  clean : AreClean c.line_id c.folder_id r.entries
  counted : AreCounted r.entries
  same_total : total_in r.entries ≡ total_in es
  same_view : visible_in r.entries ≡ visible_in es

-- What it makes of a folder.
pub record Cleaned (number : ℕ) (f : Fav) (r : ℕ × Fav) : Type 0 where
  pub numbered : r.0 ≡ number
  pub clean : IsClean r.1
  pub counted : IsCounted r.1
  pub same_total : total r.1 ≡ total f
  pub same_view : visible r.1 ≡ visible f

rebuild_in-folder :
    (number : ℕ) (c : Counts) (es : Entries)
    → IsCounted (fav c es)
    → total (fav c es) ≤ number
    → Rebuilds
        (number - get_data_number c)
        (no_counts c)
        es
        (rebuild_in (number - get_data_number c) (no_counts c) es)
    → Cleaned number (fav c es) (rebuild_fav number (fav c es))
unfolding rebuild_fav
rebuild_in-folder number c es (b, l, f, ml, mf, inner) t r = record {
  numbered = omega (arith, r.numbered, b, l, f, t);
  clean = (
    omega (arith, r.line_ids, r.same_lines),
    omega (arith, r.folder_ids, r.same_folders),
    r.clean,
  );
  counted = (
    omega (arith, r.boards, r.same_boards),
    omega (arith, r.lines, r.same_lines),
    omega (arith, r.folders, r.same_folders),
    omega (arith, r.same_lines, ml),
    omega (arith, r.same_folders, mf),
    r.counted,
  );
  same_total = omega (arith, r.boards, r.lines, r.folders, b, l, f, r.same_total);
  same_view = r.same_view;
}

-- The loop, and the folders inside it.
rebuild_in-Rebuilds :
    (number : ℕ) (c : Counts) (es : Entries)
    → AreCounted es
    → total_in es ≤ number
    → c.n_lines + lines_of es ≤ max_line
    → c.n_folders + folders_of es ≤ max_folder
    → c.line_id ≡ c.n_lines
    → c.folder_id ≡ c.n_folders
    → Rebuilds number c es (rebuild_in number c es)
unfolding rebuild_in
rebuild_in-Rebuilds number c no_more a t ml mf il if_ = record {
  numbered = omega arith;
  allocs = refl;
  boards = omega arith;
  lines = omega arith;
  folders = omega arith;
  line_ids = omega arith;
  folder_ids = omega arith;
  same_boards = refl;
  same_lines = refl;
  same_folders = refl;
  clean = tt;
  counted = tt;
  same_total = refl;
  same_view = refl;
}
rebuild_in-Rebuilds number c (board attr bid lastvisit brd_attr es) a t ml mf il if_ =
    elim (Bool-cases (valid_item attr)) [
      | inr out ↦
          let r = rebuild_in-Rebuilds number c es a t ml mf il if_ in
          let z : one_if (valid_item attr) ≡ 0 = rw out refl in
          rw out (record {
            numbered = omega (arith, r.numbered, z);
            allocs = r.allocs;
            boards = omega (arith, r.boards, z);
            lines = r.lines;
            folders = r.folders;
            line_ids = r.line_ids;
            folder_ids = r.folder_ids;
            same_boards = omega (arith, r.same_boards, z);
            same_lines = r.same_lines;
            same_folders = r.same_folders;
            clean = r.clean;
            counted = r.counted;
            same_total = r.same_total;
            same_view = rw out r.same_view;
          })
      | inl in_ ↦
          let r =
            rebuild_in-Rebuilds (number + 1) (more_boards c) es a (omega arith) ml mf il if_ in
          let z : one_if (valid_item attr) ≡ 1 = rw in_ refl in
          rw in_ (record {
            numbered = omega (arith, r.numbered, z);
            allocs = r.allocs;
            boards = omega (arith, r.boards, z);
            lines = r.lines;
            folders = r.folders;
            line_ids = r.line_ids;
            folder_ids = r.folder_ids;
            same_boards = omega (arith, r.same_boards, z);
            same_lines = r.same_lines;
            same_folders = r.same_folders;
            clean = (in_, r.clean);
            counted = r.counted;
            same_total = r.same_total;
            same_view = rw in_ (ap (board attr bid lastvisit brd_attr) r.same_view);
          })
    ]
rebuild_in-Rebuilds number c (line attr lid es) a t ml mf il if_ =
    elim (Bool-cases (valid_item attr)) [
      | inr out ↦
          let z : one_if (valid_item attr) ≡ 0 = rw out refl in
          let r = rebuild_in-Rebuilds number c es a t (omega (arith, z)) mf il if_ in
          rw out (record {
            numbered = omega (arith, r.numbered, z);
            allocs = r.allocs;
            boards = r.boards;
            lines = omega (arith, r.lines, z);
            folders = r.folders;
            line_ids = omega (arith, r.line_ids, z);
            folder_ids = r.folder_ids;
            same_boards = r.same_boards;
            same_lines = omega (arith, r.same_lines, z);
            same_folders = r.same_folders;
            clean = r.clean;
            counted = r.counted;
            same_total = r.same_total;
            same_view = rw out r.same_view;
          })
      | inl in_ ↦
          let z : one_if (valid_item attr) ≡ 1 = rw in_ refl in
          let next : (c.line_id + 1) % 256 ≡ c.line_id + 1 = omega (arith, z, il) in
          let next' : (c.n_lines + 1) % 256 ≡ c.n_lines + 1 = omega (arith, z) in
          let r =
            rebuild_in-Rebuilds (number + 1) (more_lines c) es a (omega arith)
              (omega (arith, z, next')) mf (omega (arith, il)) if_ in
          let es1 = (rebuild_in (number + 1) (more_lines c) es).entries in
          let clean' = subst (λ k. AreClean k c.folder_id es1) next r.clean in
          rw in_ (record {
            numbered = omega (arith, r.numbered, z);
            allocs = r.allocs;
            boards = r.boards;
            lines = omega (arith, r.lines, z, next');
            folders = r.folders;
            line_ids = omega (arith, r.line_ids, z, next);
            folder_ids = r.folder_ids;
            same_boards = r.same_boards;
            same_lines = omega (arith, r.same_lines, z);
            same_folders = r.same_folders;
            clean = (in_, next, clean');
            counted = r.counted;
            same_total = r.same_total;
            same_view = rw in_ (ap (line attr 0) r.same_view);
          })
    ]
rebuild_in-Rebuilds number c (folder attr fid title (fav c' es') es) (a', a) t ml mf il if_ =
    elim (Bool-cases (valid_item attr)) [
      | inr out ↦
          let z : one_if (valid_item attr) ≡ 0 = rw out refl in
          let zt : (if valid_item attr then total (fav c' es') else 0) ≡ 0 = rw out refl in
          let r =
            rebuild_in-Rebuilds number c es a (omega (arith, zt)) ml (omega (arith, z)) il if_ in
          rw out (record {
            numbered = omega (arith, r.numbered, z);
            allocs = r.allocs;
            boards = r.boards;
            lines = r.lines;
            folders = omega (arith, r.folders, z);
            line_ids = r.line_ids;
            folder_ids = omega (arith, r.folder_ids, z);
            same_boards = r.same_boards;
            same_lines = r.same_lines;
            same_folders = omega (arith, r.same_folders, z);
            clean = r.clean;
            counted = r.counted;
            same_total = omega (arith, r.same_total, zt);
            same_view = rw out r.same_view;
          })
      | inl in_ ↦
          let z : one_if (valid_item attr) ≡ 1 = rw in_ refl in
          let zt : (if valid_item attr then total (fav c' es') else 0) ≡ total (fav c' es') =
            rw in_ refl in
          let counted' = a' in_ in
          let (b', l', f', ml', mf', inner') = counted' in
          let s = rebuild_in-folder number c' es' counted' (omega (arith, zt)) (
            rebuild_in-Rebuilds (number - get_data_number c') (no_counts c') es' inner'
              (omega (arith, zt)) (omega arith) (omega arith) refl refl) in
          let next : (c.folder_id + 1) % 256 ≡ c.folder_id + 1 = omega (arith, z, if_) in
          let next' : (c.n_folders + 1) % 256 ≡ c.n_folders + 1 = omega (arith, z) in
          let r =
            rebuild_in-Rebuilds ((rebuild_fav number (fav c' es')).0 + 1) (more_folders c) es a
              (omega (arith, s.numbered)) ml (omega (arith, z, next')) il (omega (arith, if_)) in
          let es1 =
            (rebuild_in ((rebuild_fav number (fav c' es')).0 + 1) (more_folders c) es).entries in
          let clean' = subst (λ k. AreClean c.line_id k es1) next r.clean in
          rw in_ (record {
            numbered = omega (arith, r.numbered, z, s.numbered);
            allocs = r.allocs;
            boards = r.boards;
            lines = r.lines;
            folders = omega (arith, r.folders, z, next');
            line_ids = r.line_ids;
            folder_ids = omega (arith, r.folder_ids, z, next);
            same_boards = r.same_boards;
            same_lines = r.same_lines;
            same_folders = omega (arith, r.same_folders, z);
            clean = (in_, next, s.clean, clean');
            counted = (λ v. s.counted, r.counted);
            same_total = rw in_ (omega (arith, s.same_total, r.same_total));
            same_view =
                rw in_ (ap₂ (λ v w. folder attr 0 title (fav zeros v) w) s.same_view r.same_view);
          })
    ]

AreClean-needs_rebuild : (l f : ℕ) (es : Entries) → AreClean l f es → needs_rebuild_in es ≡ false
unfolding needs_rebuild_in
AreClean-needs_rebuild l f no_more c = refl
AreClean-needs_rebuild l f (board attr bid lastvisit brd_attr es) (v, c) =
    rw (v, AreClean-needs_rebuild l f es c) refl
AreClean-needs_rebuild l f (line attr lid es) (v, _, c) =
    rw (v, AreClean-needs_rebuild (l + 1) f es c) refl
AreClean-needs_rebuild l f (folder attr fid title (fav c' es') es) (v, _, (_, _, inner), c) =
    rw (v, AreClean-needs_rebuild 0 0 es' inner, AreClean-needs_rebuild l (f + 1) es c) refl

-- `rebuild_fav` of a tree whose counters are right, and counted in `fav_number`, leaves that number
-- and the counters right, and leaves exactly the entries that were not removed, in every folder and
-- in order; their ids then count up from 1, and no rebuild is needed any more.
pub rebuild_fav-Cleaned :
    (number : ℕ) (f : Fav)
    → IsCounted f
    → total f ≤ number
    → Cleaned number f (rebuild_fav number f) × (needs_rebuild (rebuild_fav number f).1 ≡ false)
rebuild_fav-Cleaned number (fav c es) counted t =
    let (b, l, f, ml, mf, inner) = counted in
    let r = rebuild_in-folder number c es counted t (
      rebuild_in-Rebuilds (number - get_data_number c) (no_counts c) es inner (omega arith)
        (omega arith) (omega arith) refl refl) in
    (r, clean_tree (rebuild_fav number (fav c es)).1 r.clean)
  where
    clean_tree : (g : Fav) → IsClean g → needs_rebuild g ≡ false
    clean_tree (fav c es) (_, _, h) = unfold needs_rebuild in AreClean-needs_rebuild 0 0 es h
