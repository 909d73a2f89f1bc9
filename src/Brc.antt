-- ===== src/Brc.antt =====
-- mbbsd/brc.c: which articles a user has read. Here the read records of one board, `brc_list`;
-- Buffer has those of all boards.
-- A `time4_t` is its 32-bit pattern; C compares it as a signed number, `biased` gives that order.
pub mod Add
pub mod Frame
pub mod Nearest
pub mod Buffer
mod Tests
use brs_bbs.Prelude.{
  ℕ, zero, suc, ◌+◌, ◌-◌, ◌*◌, ◌/◌, ◌%◌, ◌^◌, ◌≤◌, ◌<◌, min, ◌≡◌, refl, sym, ap, ap₂, ◌∙◌, subst,
  ◌≢◌, ◌↔◌, ◌⊎◌, inl, inr, Bool, true, false, not, ◌&&◌, ◌||◌, Option, none, some, List, [], ◌∷◌,
  ◌++◌, append-nil, append_assoc, map, flatten, arith, ltb, leb, ◌==◌, if◌then◌else◌, ltb→lt,
  lt→ltb, leb→le, ==_iff, tests, Bool-cases, Option-cases, List-cases, ◌>>=◌, take-whole,
  drop-whole, take-append_le, take-append_past, drop-append_past, drop-drop, take-take,
  drop-append_le, drop-take, within, length, get_elem?, set, length-append, length-set, take, drop,
  replicate, length-take, length-drop, take-append-drop, length-replicate,
}

abbrev pub brc_maxnum : ℕ
brc_maxnum = 80

-- `(time4_t)-1`
abbrev pub minus_one : ℕ
minus_one = 2 ^ 32 - 1

pub biased : ℕ → ℕ
biased t = (t + 2 ^ 31) % 2 ^ 32

-- `a < b` on `time4_t`
abbrev pub lt_time : ℕ → ℕ → Bool
lt_time a b = ltb (biased a) (biased b)

-- `brc_rec`
pub record BrcRec : Type 0 where
  pub create : ℕ
  pub modified : ℕ

-- The body of the loop of `brc_addlist` where the create times agree. The flag is `brc_changed`.
pub touch : BrcRec → ℕ → BrcRec × Bool
touch r modified =
    let old = if r.modified == minus_one then 0 else r.modified in
    if modified == minus_one
    then (r, false)
    else if lt_time old modified
    then (record r { modified = modified }, true)
    else (record r { modified = old }, false)

-- The loop: what it makes of the list, and whether it sets `brc_changed`.
pub add_loop : List BrcRec → BrcRec → List BrcRec × Bool
add_loop [] frec = ([], false)
add_loop (r ∷ rs) frec =
    let t = touch r frec.modified in
    let rest = add_loop rs frec in
    if frec.create == r.create
    then (t.0 ∷ rs, t.1)
    else if lt_time r.create frec.create
    then (frec ∷ r ∷ rs, true)
    else (r ∷ rest.0, rest.1)

-- `brc_num == 1 && frec.create < brc_list[0].create`
pub is_older_than_only : List BrcRec → BrcRec → Bool
is_older_than_only (r ∷ []) frec = lt_time frec.create r.create
is_older_than_only _ frec = false

-- `brc_addlist` behind its check of the user. The list is `brc_list[0..brc_num)`; one that is full
-- loses its last record to the shift.
pub addlist : ℕ → List BrcRec → BrcRec → List BrcRec × Bool
unfolding is_older_than_only
addlist expire_time [] frec =
    if not (lt_time expire_time frec.create) then ([], false) else (frec ∷ [], true)
addlist expire_time list frec =
    let r = add_loop list frec in
    if not (lt_time expire_time frec.create)
    then (list, false)
    else if is_older_than_only list frec
    then (list, false)
    else (take brc_maxnum r.0, r.1)

-- `brc_addlist` on a list that `brc_initialize` has set up, for the board that it is of: nothing is
-- recorded for a user without a level.
unfoldable pub brc_addlist : ℕ → ℕ → List BrcRec → BrcRec → List BrcRec × Bool
brc_addlist userlevel expire_time list frec =
    let added = addlist expire_time list frec in if userlevel == 0 then (list, false) else added

-- The comparison of the modification times in `brc_unread_time`.
pub unread_modified : ℕ → ℕ → ℕ
unread_modified modified brcm =
    if modified == 0 || brcm == 0
    then 0
    else if modified == minus_one || brcm == minus_one
    then 0
    else if lt_time brcm modified
    then 2
    else 0

-- The loop of `brc_unread_time`.
pub unread_loop : List BrcRec → ℕ → ℕ → ℕ
unread_loop [] ftime modified = 0
unread_loop (r ∷ rs) ftime modified =
    if lt_time r.create ftime
    then 1
    else if ftime == r.create
    then unread_modified modified r.modified
    else unread_loop rs ftime modified

-- `brc_unread_time` on the records of the board: 0 read, 1 unread, 2 modified since.
pub unread_time : ℕ → List BrcRec → ℕ → ℕ → ℕ
unread_time expire_time [] ftime modified = if not (lt_time expire_time ftime) then 0 else 1
unread_time expire_time list ftime modified =
    if not (lt_time expire_time ftime) then 0 else unread_loop list ftime modified

-- The results of `brc_search_read`: -1, 0, and 1 with `*result`.
pub data Found : Type 0 where
  no_records : Found
  not_found : Found
  found : ℕ → Found

-- The loop of `brc_search_read`. `newer` is `blist[i - 1].create`, if there is one.
pub search_loop : Option ℕ → List BrcRec → ℕ → Bool → Found
search_loop newer [] ftime forward =
    if forward then elim newer [ some t ↦ found t | none ↦ not_found ] else not_found
search_loop newer (r ∷ rs) ftime forward =
    let go_newer : Found = elim newer [ some t ↦ found t | none ↦ not_found ] in
    let go_older : Found = elim rs [ [] ↦ not_found | o ∷ _ ↦ found o.create ] in
    if lt_time r.create ftime
    then (if forward then go_newer else found r.create)
    else if ftime == r.create
    then (if forward then go_newer else go_older)
    else search_loop (some r.create) rs ftime forward

-- `bnum == 0 || !blist || (bnum == 1 && blist[0].create == 1)`
pub has_no_records : List BrcRec → Bool
has_no_records [] = true
has_no_records (r ∷ []) = r.create == 1
has_no_records _ = false

-- `brc_search_read` on the records of the board.
pub search_read : List BrcRec → ℕ → Bool → Found
unfolding has_no_records
search_read list ftime forward =
    let r = search_loop none list ftime forward in if has_no_records list then no_records else r
