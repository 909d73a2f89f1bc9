-- ===== src/Fav/Tests.antt =====
-- Runs of the favourites, and the theorems at concrete trees.
use brs_bbs.Prelude.{ℕ, ◌≡◌, refl, inl, true, false, none, List, [], ◌∷◌, arith, replicate}
use brs_bbs.Fav.{
  Counts, Fav, fav, no_more, board, line, folder, needs_rebuild, rebuild_fav, fav_cleanup,
  write_favrec, read_favrec, title_size, write_entries, read_entries, write_subs, read_subs,
}
use brs_bbs.Fav.Tree.{IsCounted}
use brs_bbs.Fav.Rebuild.{Cleaned, rebuild_fav-Cleaned}
use brs_bbs.Fav.Store.{IsStorable}
use brs_bbs.Fav.Items.{
  type_folder, get_fav_item, fav_remove_item, fav_add_line, fav_add_folder, free_item,
}
use brs_bbs.Fav.Saved.{Loads, fav_load-fav_save}
use brs_bbs.Fav.Items.Removed.{Removes, fav_remove_item-Removes}
use brs_bbs.Fav.Items.Preappend.{Adds}
use brs_bbs.Fav.Items.Counted.{AddsBoard, Grows, new_line, folder_entry, fav_add-Adds}

abbrev counts : ℕ → ℕ → ℕ → ℕ → ℕ → Counts
counts boards lines folders lid fid = record {
  n_allocs = 8;
  n_boards = boards;
  n_lines = lines;
  n_folders = folders;
  line_id = lid;
  folder_id = fid;
}

abbrev untitled : List ℕ
untitled = replicate title_size 0

-- A line was removed, and in the folder a board.
abbrev inner : Fav
inner = fav (counts 1 0 0 0 0) (board 0 7 0 0 (board 1 300 0 0 no_more))

abbrev used : Fav
used =
    fav (counts 1 1 1 2 1) (line 0 1 (board 1 5 0 0 (folder 1 1 untitled inner (line 1 2 no_more))))

-- The same, cleaned up.
abbrev clean_inner : Fav
clean_inner = fav (counts 1 0 0 0 0) (board 1 300 0 0 no_more)

abbrev clean : Fav
clean = fav (counts 1 1 1 1 1) (board 1 5 0 0 (folder 1 1 untitled clean_inner (line 1 1 no_more)))

cleaned_up : fav_cleanup 4 used ≡ (4, clean)
unfolding fav_cleanup needs_rebuild rebuild_fav
cleaned_up = refl

left_alone : fav_cleanup 4 clean ≡ (4, clean)
unfolding fav_cleanup needs_rebuild
left_alone = refl

stored :
    write_favrec clean_inner
    ≡ 1 ∷ 0 ∷ 0 ∷ 0 ∷ 1 ∷ 1 ∷ 44 ∷ 1 ∷ 0 ∷ 0 ∷ 0 ∷ 0 ∷ 0 ∷ 0 ∷ 0 ∷ 0 ∷ 0 ∷ 0 ∷ []
unfolding write_favrec write_entries write_subs
stored = refl

-- An unknown type of entry ends the reading.
unknown_type : read_favrec 1 0 (1 ∷ 0 ∷ 0 ∷ 0 ∷ 9 ∷ []) ≡ none
unfolding read_favrec read_entries read_subs
unknown_type = refl

-- `fav_number` keeps counting what is in a folder that is removed.
lost_sight : fav_remove_item 4 clean 1 type_folder ≡ (
  3,
  fav (counts 1 1 0 1 1) (board 1 5 0 0 (folder 0 1 untitled clean_inner (line 1 1 no_more))),
)
unfolding fav_remove_item get_fav_item free_item
lost_sight = refl

clean_inner-IsCounted : IsCounted clean_inner
clean_inner-IsCounted = (refl, refl, refl, omega arith, omega arith, tt)

clean-IsCounted : IsCounted clean
clean-IsCounted = (refl, refl, refl, omega arith, omega arith, ((λ v. clean_inner-IsCounted), tt))

used-IsCounted : IsCounted used
used-IsCounted = (
  refl,
  refl,
  refl,
  omega arith,
  omega arith,
  ((λ v. (refl, refl, refl, omega arith, omega arith, tt)), tt),
)

rebuild_fav-Cleaned_example :
    Cleaned 4 used (rebuild_fav 4 used) × (needs_rebuild (rebuild_fav 4 used).1 ≡ false)
rebuild_fav-Cleaned_example = rebuild_fav-Cleaned 4 used used-IsCounted (omega arith)

fav_add-Adds_example :
    AddsBoard 100 4 6 clean
    × Adds false 4 clean (fav_add_line 4 clean)
    × Grows new_line clean (fav_add_line 4 clean)
    × Adds false 4 clean (fav_add_folder false 4 clean)
    × Grows folder_entry clean (fav_add_folder false 4 clean)
fav_add-Adds_example = fav_add-Adds 100 4 clean 6 false clean-IsCounted (omega arith) (omega arith)

fav_remove_item-Removes_example :
    Removes 4
      (counts 1 1 1 1 1)
      (board 1 5 0 0 (folder 1 1 untitled clean_inner (line 1 1 no_more)))
      1
      type_folder
      (fav_remove_item 4 clean 1 type_folder)
fav_remove_item-Removes_example =
    fav_remove_item-Removes 4 (counts 1 1 1 1 1)
      (board 1 5 0 0 (folder 1 1 untitled clean_inner (line 1 1 no_more))) 1 type_folder
      clean-IsCounted (omega arith)

used-IsStorable : IsStorable used
used-IsStorable = (
  omega arith,
  (
    omega arith,
    omega arith,
    (refl, (omega arith, (omega arith, omega arith, (omega arith, omega arith, tt))), tt),
  ),
)

used-rebuilds : needs_rebuild used ≡ true
unfolding needs_rebuild
used-rebuilds = refl

fav_load-fav_save_example : Loads 2 5 used
fav_load-fav_save_example =
    fav_load-fav_save 2 5 used used-IsCounted used-IsStorable (omega arith) (omega arith)
      (inl used-rebuilds)
