-- ===== src/Brc/Nearest.antt =====
-- `brc_search_read`: the nearest read article on either side of a time.
use brs_bbs.Prelude.{
  ℕ, ◌^◌, ◌≤◌, ◌<◌, ◌≡◌, refl, inl, inr, Bool, true, false, Option, none, some, List, [], ◌∷◌,
  arith, ◌==◌, if◌then◌else◌, Bool-cases, Option-cases,
}
use brs_bbs.Brc.{
  BrcRec, lt_time, biased, Found, no_records, not_found, found, search_loop, has_no_records,
  search_read,
}
use brs_bbs.Brc.Add.{Below, IsSorted, older_of_ne}

-- Of the records newer than `t`, the last in the list.
pub oldest_newer : ℕ → List BrcRec → Option ℕ
oldest_newer t [] = none
oldest_newer t (r ∷ rs) = elim (oldest_newer t rs) [
  | some x ↦ some x
  | none ↦ if lt_time t r.create then some r.create else none
]

-- Of the records older than `t`, the first in the list.
pub newest_older : ℕ → List BrcRec → Option ℕ
newest_older t [] = none
newest_older t (r ∷ rs) = if lt_time r.create t then some r.create else newest_older t rs

abbrev pub as_found : Option ℕ → Found
as_found none = not_found
as_found (some t) = found t

abbrev or_else : Option ℕ → Option ℕ → Option ℕ
or_else none b = b
or_else (some a) b = some a

-- Nothing in a list of records below `t` is newer than `t`.
oldest_newer-Below :
    (list : List BrcRec) (t b : ℕ)
    → b ≤ biased t
    → Below b list
    → IsSorted list
    → oldest_newer t list ≡ none
unfolding oldest_newer
oldest_newer-Below [] t b h below s = refl
oldest_newer-Below (r ∷ rs) t b h below (w, c, s) =
    ground (arith, oldest_newer-Below rs t (biased r.create) (omega arith) c s)

older_of_not_newest :
    (r : BrcRec) (t : ℕ)
    → t < 2 ^ 32
    → r.create < 2 ^ 32
    → (t == r.create) ≡ false
    → lt_time r.create t ≡ false
    → lt_time t r.create ≡ true
older_of_not_newest r t w wr n g = ground (arith, older_of_ne t r.create w wr n g)

-- A newer head is the answer when nothing behind it is newer.
or_else-oldest_newer :
    (r : BrcRec) (rs : List BrcRec) (newer : Option ℕ) (t : ℕ)
    → lt_time t r.create ≡ true
    → as_found (or_else (oldest_newer t rs) (some r.create))
      ≡ as_found (or_else (oldest_newer t (r ∷ rs)) newer)
unfolding oldest_newer
or_else-oldest_newer r rs newer t e = elim (Option-cases (oldest_newer t rs)) [
  | inl n ↦ rw (n, e)
  | inr (x, n) ↦ rw n
]

as_found-none : (o : Option ℕ) → as_found (or_else o none) ≡ as_found o
as_found-none none = refl
as_found-none (some a) = refl

search_loop_forward :
    (list : List BrcRec) (newer : Option ℕ) (t : ℕ)
    → t < 2 ^ 32
    → IsSorted list
    → search_loop newer list t true ≡ as_found (or_else (oldest_newer t list) newer)
unfolding search_loop oldest_newer
search_loop_forward [] newer t w s = ground arith
search_loop_forward (r ∷ rs) newer t w (wr, c, s) = elim (Bool-cases (lt_time r.create t)) [
  | inl newest ↦ ground (arith, oldest_newer-Below rs t (biased r.create) (ground arith) c s)
  | inr g ↦ elim (Bool-cases (t == r.create)) [
    | inl e ↦ ground (arith, oldest_newer-Below rs t (biased r.create) (ground arith) c s)
    | inr n ↦
        rw (g, n, search_loop_forward rs (some r.create) t w s)
          (or_else-oldest_newer r rs newer t (older_of_not_newest r t w wr n g))
  ]
]

-- The first record below `t` is the head.
newest_older-Below :
    (list : List BrcRec) (t b : ℕ)
    → b ≤ biased t
    → Below b list
    → as_found (newest_older t list) ≡ elim list [ [] ↦ not_found | o ∷ _ ↦ found o.create ]
unfolding newest_older
newest_older-Below [] t b h below = refl
newest_older-Below (r ∷ rs) t b h below = ground arith

search_loop_backward :
    (list : List BrcRec) (newer : Option ℕ) (t : ℕ)
    → t < 2 ^ 32
    → IsSorted list
    → search_loop newer list t false ≡ as_found (newest_older t list)
unfolding search_loop newest_older
search_loop_backward [] newer t w s = ground arith
search_loop_backward (r ∷ rs) newer t w (wr, c, s) = elim (Bool-cases (lt_time r.create t)) [
  | inl newest ↦ rw (newest)
  | inr g ↦ elim (Bool-cases (t == r.create)) [
    | inl e ↦ rw (g, e, newest_older-Below rs t (biased r.create) (ground arith) c)
    | inr n ↦ rw (g, n, search_loop_backward rs (some r.create) t w s) refl
  ]
]

-- `brc_search_read` on a sorted list: 0 with no records, else forward the oldest record newer than
-- the time, backward the newest record older, `not_found` when there is none.
pub search_read_nearest :
    (list : List BrcRec) (t : ℕ)
    → t < 2 ^ 32
    → IsSorted list
    → (has_no_records list ≡ false
        → (search_read list t true ≡ as_found (oldest_newer t list))
          × (search_read list t false ≡ as_found (newest_older t list)))
      × (has_no_records list ≡ true → (forward : Bool) → search_read list t forward ≡ no_records)
unfolding search_read
search_read_nearest list t w s = (
  λ n. (
    rw (n, search_loop_forward list none t w s, as_found-none (oldest_newer t list)),
    rw (n, search_loop_backward list none t w s),
  ),
  λ y forward. rw (y),
)
