-- ===== src/Fav/Store.antt =====
-- The file of the favourites: what `write_favrec` writes, `read_favrec` reads back.
use brs_bbs.Prelude.{
  ℕ, zero, suc, ◌+◌, ◌*◌, ◌/◌, ◌%◌, ◌^◌, ◌≤◌, ◌<◌, ◌≡◌, refl, sym, ap, ◌∙◌, Option, some, List,
  ◌++◌, append_assoc, arith, ltb, if◌then◌else◌, drop-append_past, length, drop,
}
use brs_bbs.Prelude.Bytes.{at, read_at, list_ext, at-append, at-tabulate, length-tabulate}
use brs_bbs.Fav.{
  Fav, fav, Entries, no_more, board, line, folder, get_data_number, max_line, max_folder,
  fav_pre_alloc, write_entries, write_favrec, write_subs, title_size, unread, read_entries,
  read_subs, read_favrec,
}
use brs_bbs.Fav.Tree.{
  boards_of, lines_of, folders_of, IsCounted, AreCounted, IsClean, AreClean, total, total_in,
}

-- Values that their fields of the file hold.
abbrev mutual
  pub IsStorable : Fav → Type 0
  IsStorable (fav c es) = (c.n_boards < 2 ^ 15) × AreStorable es

  pub AreStorable : Entries → Type 0
  AreStorable no_more = Unit {0}
  AreStorable (board attr bid lastvisit brd_attr es) =
      (bid < 2 ^ 32) × (lastvisit < 2 ^ 32) × AreStorable es
  AreStorable (line attr lid es) = AreStorable es
  AreStorable (folder attr fid title sub es) =
      (length title ≡ title_size) × IsStorable sub × AreStorable es

-- The tree as it is read: only the spare room of the arrays is new.
abbrev mutual
  pub reloaded : Fav → Fav
  reloaded (fav c es) =
      fav (record c { n_allocs = get_data_number c + fav_pre_alloc }) (reloaded_in es)

  pub reloaded_in : Entries → Entries
  reloaded_in no_more = no_more
  reloaded_in (board attr bid lastvisit brd_attr es) =
      board attr bid lastvisit brd_attr (reloaded_in es)
  reloaded_in (line attr lid es) = line attr lid (reloaded_in es)
  reloaded_in (folder attr fid title sub es) = folder attr fid title (reloaded sub) (reloaded_in es)

-- How deep the folders go.
abbrev mutual
  pub depth : Fav → ℕ
  depth (fav c es) = suc (depth_in es)

  pub depth_in : Entries → ℕ
  depth_in no_more = 0
  depth_in (board attr bid lastvisit brd_attr es) = depth_in es
  depth_in (line attr lid es) = depth_in es
  depth_in (folder attr fid title sub es) =
      let rest = depth_in es in if ltb rest (depth sub) then depth sub else rest

size : Entries → ℕ
size no_more = 0
size (board attr bid lastvisit brd_attr es) = suc (size es)
size (line attr lid es) = suc (size es)
size (folder attr fid title sub es) = suc (size es)

-- The entries as the first loop leaves them.
bare : Entries → Entries
bare no_more = no_more
bare (board attr bid lastvisit brd_attr es) = board attr bid lastvisit brd_attr (bare es)
bare (line attr lid es) = line attr lid (bare es)
bare (folder attr fid title sub es) = folder attr fid title unread (bare es)

read_at-front : (xs ys : List ℕ) (n : ℕ) → length xs ≡ n → read_at (xs ++ ys) 0 n ≡ xs
read_at-front xs ys n h = list_ext _ _ (length-tabulate n _ ∙ sym h) (λ i l.
    let inside : i < n = omega (arith, length-tabulate n (λ j. at (xs ++ ys) (0 + j))) in
    at-tabulate n (λ j. at (xs ++ ys) (0 + j)) i inside
    ∙ ap (at (xs ++ ys)) (omega arith)
    ∙ at-append xs ys i
    ∙ ground (arith, h))

word32-le32 :
    (n : ℕ)
    → n < 2 ^ 32
    → n % 256 + 256 * (n / 256 % 256) + 65536 * (n / 65536 % 256) + 16777216 * (n / 16777216 % 256)
      ≡ n
word32-le32 n h = omega arith

read_entries-write_entries :
    (es : Entries) (rest : List ℕ)
    → AreStorable es
    → read_entries (size es) (write_entries (size es) es ++ rest) ≡ some (bare es, rest)
unfolding read_entries write_entries size bare
read_entries-write_entries no_more rest s = refl
read_entries-write_entries (board attr bid lastvisit brd_attr es) rest (b, l, s) =
    rw (read_entries-write_entries es rest s, word32-le32 bid b, word32-le32 lastvisit l) refl
read_entries-write_entries (line attr lid es) rest s =
    rw (read_entries-write_entries es rest s) refl
read_entries-write_entries (folder attr fid title sub es) rest (t, _, s) =
    let later = write_entries (size es) es in
    let split = append_assoc title later rest in
    let past : drop 49 ((title ++ later) ++ rest) ≡ later ++ rest =
      ap (drop 49) split ∙ drop-append_past 49 0 title (later ++ rest) (omega (arith, t)) in
    let front : read_at ((title ++ later) ++ rest) 0 title_size ≡ title =
      ap (λ l. read_at l 0 title_size) split ∙ read_at-front title (later ++ rest) title_size t in
    rw (past, front, read_entries-write_entries es rest s) refl

size-counts :
    (l f : ℕ) (es : Entries)
    → AreClean l f es
    → size es ≡ boards_of es + lines_of es + folders_of es
unfolding size
size-counts l f no_more c = refl
size-counts l f (board attr bid lastvisit brd_attr es) (v, c) =
    rw v (omega (arith, size-counts l f es c))
size-counts l f (line attr lid es) (v, _, c) = rw v (omega (arith, size-counts (l + 1) f es c))
size-counts l f (folder attr fid title sub es) (v, _, _, c) =
    rw v (omega (arith, size-counts l (f + 1) es c))

-- A function that reads back every folder that is no deeper than `n`.
abbrev Reads : (ℕ → List ℕ → Option (ℕ × Fav × List ℕ)) → ℕ → Type 0
Reads read n =
    (number : ℕ) (sub : Fav) (rest : List ℕ)
    → IsClean sub
    → IsCounted sub
    → IsStorable sub
    → depth sub ≤ n
    → read number (write_favrec sub ++ rest) ≡ some (number + total sub, reloaded sub, rest)

read_subs-write_subs :
    (read : ℕ → List ℕ → Option (ℕ × Fav × List ℕ)) (n number N l f L F : ℕ) (es : Entries)
    (rest : List ℕ)
    → Reads read n
    → AreClean l f es
    → AreCounted es
    → AreStorable es
    → depth_in es ≤ n
    → number + total_in es ≡ N
    → l + lines_of es ≡ L
    → f + folders_of es ≡ F
    → L ≤ max_line
    → F ≤ max_folder
    → read_subs read number l f (bare es) (write_subs (size es) es ++ rest)
      ≡ some
          (record { number = N; entries = reloaded_in es; line_id = L; folder_id = F; rest = rest })
unfolding read_subs write_subs size bare
read_subs-write_subs read n number N l f L F no_more rest rd c k s d en el ef ml mf =
    let number' : number ≡ N = omega (arith, en) in
    let l' : l ≡ L = omega (arith, el) in
    let f' : f ≡ F = omega (arith, ef) in rw (number', l', f') refl
read_subs-write_subs read n number N l f L F (board attr bid lastvisit brd_attr es) rest rd (v, c) k
      (_, _, s) d en el ef ml mf =
    rw (read_subs-write_subs read n number N l f L F es rest rd c k s d en el ef ml mf) refl
read_subs-write_subs read n number N l f L F (line attr lid es) rest rd (v, e, c) k s d en el ef ml
      mf =
    let el' : l + (1 + lines_of es) ≡ L = rw v at el in
    let next : (l + 1) % 256 ≡ l + 1 = omega (arith, el') in
    let rest_read =
      read_subs-write_subs read n number N (l + 1) f L F es rest rd c k s d en (omega (arith, el'))
        ef ml mf in
    rw (e, next, rest_read) refl
read_subs-write_subs read n number N l f L F (folder attr fid title sub es) rest rd (v, e, cs, c)
      (ks, k) (t, ss, s) d en el ef ml mf =
    let en' : number + (total sub + total_in es) ≡ N = rw v at en in
    let ef' : f + (1 + folders_of es) ≡ F = rw v at ef in
    let next : (f + 1) % 256 ≡ f + 1 = omega (arith, ef') in
    let later = write_subs (size es) es in
    let deep : (depth sub ≤ n) × (depth_in es ≤ n) = ground (arith, d) in
    let here =
      ap (read number) (append_assoc (write_favrec sub) later rest)
      ∙ rd number sub (later ++ rest) cs (ks v) ss deep.0 in
    let rest_read =
      read_subs-write_subs read n (number + total sub) N l (f + 1) L F es rest rd c k s deep.1
        (omega (arith, en')) el (omega (arith, ef')) ml mf in
    rw (e, next, here, rest_read) refl

-- The values of the header.
word16-le16 : (n : ℕ) → n < 2 ^ 15 → n % 256 + 256 * (n / 256 % 256) ≡ n
word16-le16 n h = omega arith

read_favrec-Reads : (n : ℕ) → Reads (read_favrec n) n
unfolding read_favrec write_favrec
read_favrec-Reads zero number (fav c es) rest cl k s d = absurd (omega arith)
read_favrec-Reads (suc n) number (fav c es) rest (il, if_, cl) (kb, kl, kf, ml, mf, k) (nb, s) d =
    let count = get_data_number c in
    let entries : count ≡ size es = omega (arith, size-counts 0 0 es cl, kb, kl, kf) in
    let later = write_subs (size es) es in
    let first =
      ap (read_entries (size es)) (append_assoc (write_entries (size es) es) later rest)
      ∙ read_entries-write_entries es (later ++ rest) s in
    let second =
      read_subs-write_subs (read_favrec n) n (number + size es) (number + (size es + total_in es)) 0
        0 c.line_id c.folder_id es rest (read_favrec-Reads n) cl k s (omega arith) (omega arith)
        (omega (arith, il)) (omega (arith, if_)) (omega (arith, il)) (omega (arith, if_)) in
    rw (word16-le16 c.n_boards nb, entries, first, second) refl

-- A tree as `rebuild_fav` leaves it, with right counters, ids that count up and nothing removed, is
-- read back from its bytes as it was, whatever follows them, with fuel for the depth of its
-- folders; only the spare room of its arrays is what reading leaves, and `fav_number` is raised by
-- the entries of the whole tree.
pub read_favrec-write_favrec :
    (n number : ℕ) (f : Fav) (rest : List ℕ)
    → IsClean f
    → IsCounted f
    → IsStorable f
    → depth f ≤ n
    → read_favrec n number (write_favrec f ++ rest) ≡ some (number + total f, reloaded f, rest)
read_favrec-write_favrec n number f rest = read_favrec-Reads n number f rest
