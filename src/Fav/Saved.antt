-- ===== src/Fav/Saved.antt =====
-- Saving the favourites and loading them again.
use brs_bbs.Prelude.{
  ℕ, ◌+◌, ◌-◌, ◌≤◌, ◌≡◌, refl, sym, ap, ◌∙◌, subst, ◌⊎◌, inl, inr, true, [], append-nil, arith,
  Bool-cases,
}
use brs_bbs.Fav.{
  Counts, Fav, fav, Entries, no_more, board, line, folder, valid_item, needs_rebuild, rebuild_fav,
  rebuild_in, fav_cleanup, fav_save, fav_load, write_favrec, read_favrec, get_data_number,
  no_counts, more_boards, more_lines, more_folders,
}
use brs_bbs.Fav.Tree.{boards_of, IsCounted, AreCounted, total, IsClean, visible}
use brs_bbs.Fav.Rebuild.{rebuild_fav-Cleaned}
use brs_bbs.Fav.Store.{reloaded, depth, depth_in, IsStorable, AreStorable, read_favrec-write_favrec}

rebuild_in-boards :
    (number : ℕ) (c : Counts) (es : Entries)
    → (rebuild_in number c es).counts.n_boards ≡ c.n_boards + boards_of es
unfolding rebuild_in
rebuild_in-boards number c no_more = omega arith
rebuild_in-boards number c (board attr bid lastvisit brd_attr es) =
    elim (Bool-cases (valid_item attr)) [
      | inl v ↦ rw v (omega (arith, rebuild_in-boards (number + 1) (more_boards c) es))
      | inr v ↦ rw v (omega (arith, rebuild_in-boards number c es))
    ]
rebuild_in-boards number c (line attr lid es) = elim (Bool-cases (valid_item attr)) [
  | inl v ↦ rw v (omega (arith, rebuild_in-boards (number + 1) (more_lines c) es))
  | inr v ↦ rw v (omega (arith, rebuild_in-boards number c es))
]
rebuild_in-boards number c (folder attr fid title sub es) = elim (Bool-cases (valid_item attr)) [
  | inl v ↦
      rw v (omega (arith, rebuild_in-boards ((rebuild_fav number sub).0 + 1) (more_folders c) es))
  | inr v ↦ rw v (omega (arith, rebuild_in-boards number c es))
]

mutual
  unfolding rebuild_fav rebuild_in

  rebuild_fav-IsStorable :
      (number : ℕ) (f : Fav)
      → IsCounted f
      → IsStorable f
      → IsStorable (rebuild_fav number f).1 × (depth (rebuild_fav number f).1 ≤ depth f)
  rebuild_fav-IsStorable number (fav c es) (b, _, _, _, _, k) (nb, s) =
      let number' = number - get_data_number c in
      let (s', d) = rebuild_in-AreStorable number' (no_counts c) es k s in
      ((omega (arith, b, rebuild_in-boards number' (no_counts c) es), s'), omega (arith, d))

  rebuild_in-AreStorable :
      (number : ℕ) (c : Counts) (es : Entries)
      → AreCounted es
      → AreStorable es
      → AreStorable (rebuild_in number c es).entries
        × (depth_in (rebuild_in number c es).entries ≤ depth_in es)
  rebuild_in-AreStorable number c no_more k s = (tt, omega arith)
  rebuild_in-AreStorable number c (board attr bid lastvisit brd_attr es) k (b, l, s) =
      elim (Bool-cases (valid_item attr)) [
        | inl v ↦
            let (s', d) = rebuild_in-AreStorable (number + 1) (more_boards c) es k s in
            rw v ((b, l, s'), d)
        | inr v ↦ rw v (rebuild_in-AreStorable number c es k s)
      ]
  rebuild_in-AreStorable number c (line attr lid es) k s = elim (Bool-cases (valid_item attr)) [
    | inl v ↦ rw v (rebuild_in-AreStorable (number + 1) (more_lines c) es k s)
    | inr v ↦ rw v (rebuild_in-AreStorable number c es k s)
  ]
  rebuild_in-AreStorable number c (folder attr fid title sub es) (ks, k) (t, ss, s) =
      elim (Bool-cases (valid_item attr)) [
        | inl v ↦
            let (ss', ds) = rebuild_fav-IsStorable number sub (ks v) ss in
            let (s', d) =
              rebuild_in-AreStorable ((rebuild_fav number sub).0 + 1) (more_folders c) es k s in
            rw v ((t, ss', s'), ground (arith, ds, d))
        | inr v ↦
            let (s', d) = rebuild_in-AreStorable number c es k s in rw v (s', ground (arith, d))
      ]

fav_load-read :
    (n number : ℕ) (f : Fav)
    → IsClean (fav_cleanup number f).1
    → IsCounted (fav_cleanup number f).1
    → IsStorable (fav_cleanup number f).1
    → depth (fav_cleanup number f).1 ≤ n
    → fav_load n (fav_save number f)
      ≡ (total (fav_cleanup number f).1, reloaded (fav_cleanup number f).1)
unfolding fav_load fav_save
fav_load-read n number f cl k s d =
    let g = (fav_cleanup number f).1 in
    let e =
      ap (read_favrec n 0) (sym (append-nil (write_favrec g)))
      ∙ read_favrec-write_favrec n 0 g [] cl k s d in
    let none_before : 0 + total g ≡ total g = omega arith in
    rw (fav_load, e) (ap (λ m. (m, reloaded g)) none_before)

-- What is loaded again: the cleaned-up tree, in which the user sees what was there, and its number.
abbrev pub Loads : ℕ → ℕ → Fav → Type 0
Loads n number f =
    (fav_load n (fav_save number f) ≡ (total f, reloaded (fav_cleanup number f).1))
    × (visible (fav_cleanup number f).1 ≡ visible f)
    × IsClean (fav_cleanup number f).1

loads :
    (n number : ℕ) (f : Fav) (g : ℕ × Fav)
    → fav_cleanup number f ≡ g
    → IsClean g.1
    → IsCounted g.1
    → IsStorable g.1
    → depth g.1 ≤ n
    → total g.1 ≡ total f
    → visible g.1 ≡ visible f
    → Loads n number f
loads n number f g e cl k s d t v =
    let cl' = subst (λ x. IsClean x.1) (sym e) cl in
    let k' = subst (λ x. IsCounted x.1) (sym e) k in
    let s' = subst (λ x. IsStorable x.1) (sym e) s in
    let d' = subst (λ x. depth x.1 ≤ n) (sym e) d in
    let t' = ap (λ x. total x.1) e ∙ t in
    (
      fav_load-read n number f cl' k' s' d' ∙ ap (λ m. (m, reloaded (fav_cleanup number f).1)) t',
      ap (λ x. visible x.1) e ∙ v,
      cl',
    )

-- Favourites with right counters and storable values, all counted in `fav_number`, in which either
-- something was removed or all ids count up, are saved and loaded again, with fuel for the depth of
-- the folders, as the cleaned-up tree: the user sees exactly what was there, the ids count up from 1,
-- and `fav_number` is the number of entries of the tree, whatever it had drifted to before.
pub fav_load-fav_save :
    (n number : ℕ) (f : Fav)
    → IsCounted f
    → IsStorable f
    → total f ≤ number
    → depth f ≤ n
    → (needs_rebuild f ≡ true) ⊎ IsClean f
    → Loads n number f
unfolding fav_cleanup
fav_load-fav_save n number f k s t d ready = elim (Bool-cases (needs_rebuild f)) [
  | inl dirty ↦
      let (r, done) = rebuild_fav-Cleaned number f k t in
      let (s', d') = rebuild_fav-IsStorable number f k s in
      loads n number f (rebuild_fav number f) (rw (fav_cleanup, dirty) refl) r.clean r.counted s'
        (omega (arith, d, d')) r.same_total r.same_view
  | inr ok ↦ elim ready [
    | inl dirty ↦ absurd (ground (arith, dirty, ok))
    | inr cl ↦ loads n number f (number, f) (rw (fav_cleanup, ok) refl) cl k s d refl refl
  ]
]
