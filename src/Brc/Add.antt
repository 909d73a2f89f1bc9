-- ===== src/Brc/Add.antt =====
-- `brc_addlist`: the list stays sorted and within its array, and what was read is read.
use brs_bbs.Prelude.{
  ℕ, zero, suc, ◌^◌, ◌≤◌, ◌<◌, ◌≡◌, refl, inl, inr, true, false, List, [], ◌∷◌, arith, ◌==◌, ltb→lt,
  Bool-cases, length, take, length-take,
}
use brs_bbs.Brc.{
  BrcRec, brc_maxnum, lt_time, biased, touch, add_loop, is_older_than_only, addlist,
  unread_modified, unread_loop, unread_time, brc_addlist,
}

-- Newest first, no create time twice, each a 32-bit pattern.
abbrev pub Below : ℕ → List BrcRec → Type 0
Below b [] = Unit {0}
Below b (r ∷ rs) = biased r.create < b

abbrev pub IsSorted : List BrcRec → Type 0
IsSorted [] = Unit {0}
IsSorted (r ∷ rs) = (r.create < 2 ^ 32) × Below (biased r.create) rs × IsSorted rs

pub record IsValid (list : List BrcRec) : Type 0 where
  pub sorted : IsSorted list
  pub fits : length list ≤ brc_maxnum

add_loop-Below :
    (list : List BrcRec) (frec : BrcRec) (b : ℕ)
    → Below b list
    → biased frec.create < b
    → Below b (add_loop list frec).0
unfolding add_loop touch
add_loop-Below [] frec b h k = h
add_loop-Below (r ∷ rs) frec b h k = ground arith

-- On patterns the signed order is total.
pub older_of_ne :
    (a b : ℕ)
    → a < 2 ^ 32
    → b < 2 ^ 32
    → (a == b) ≡ false
    → lt_time b a ≡ false
    → biased a < biased b
unfolding biased
older_of_ne a b ha hb n h = ground arith

-- The head of the list decides the branch.
pub data Place (r frec : BrcRec) : Type 0 where
  same : (frec.create == r.create) ≡ true → Place r frec
  before : (frec.create == r.create) ≡ false → lt_time r.create frec.create ≡ true → Place r frec
  behind : (frec.create == r.create) ≡ false → lt_time r.create frec.create ≡ false → Place r frec

pub place : (r frec : BrcRec) → Place r frec
place r frec = elim (Bool-cases (frec.create == r.create)) [
  | inl e ↦ same e
  | inr n ↦ elim (Bool-cases (lt_time r.create frec.create)) [
    | inl l ↦ before n l
    | inr g ↦ behind n g
  ]
]

pub create-touch : (r : BrcRec) (m : ℕ) → (touch r m).0.create ≡ r.create
unfolding touch
create-touch r m = ground arith

add_loop-IsSorted :
    (list : List BrcRec) (frec : BrcRec)
    → frec.create < 2 ^ 32
    → IsSorted list
    → IsSorted (add_loop list frec).0
unfolding add_loop
add_loop-IsSorted [] frec w s = s
add_loop-IsSorted (r ∷ rs) frec w (wr, b, s) = elim (place r frec) [
  | same e ↦ rw e (rw (create-touch r frec.modified) (wr, b, s))
  | before n l ↦ rw (n, l) (w, ltb→lt _ _ l, (wr, b, s))
  | behind n g ↦
      rw (n, g)
        (
          wr,
          add_loop-Below rs frec (biased r.create) b (older_of_ne _ _ w wr n g),
          add_loop-IsSorted rs frec w s,
        )
]

Below-take : (n b : ℕ) (list : List BrcRec) → Below b list → Below b (take n list)
Below-take zero b list h = tt
Below-take (suc n) b [] h = tt
Below-take (suc n) b (r ∷ rs) h = h

IsSorted-take : (n : ℕ) (list : List BrcRec) → IsSorted list → IsSorted (take n list)
IsSorted-take zero list s = tt
IsSorted-take (suc n) [] s = tt
IsSorted-take (suc n) (r ∷ rs) (w, b, s) = (w, Below-take n _ rs b, IsSorted-take n rs s)

-- `brc_addlist` keeps the records sorted, newest first and without double times, and within the
-- `BRC_MAXNUM` entries of its array.
pub addlist-IsValid :
    (expire_time : ℕ) (list : List BrcRec) (frec : BrcRec)
    → frec.create < 2 ^ 32
    → IsValid list
    → IsValid (addlist expire_time list frec).0
unfolding addlist
addlist-IsValid expire_time [] frec w v = ground arith
addlist-IsValid expire_time (r ∷ rs) frec w v =
    let full = add_loop (r ∷ rs) frec in
    let added : IsValid (take brc_maxnum full.0) = record {
      sorted = IsSorted-take brc_maxnum full.0 (add_loop-IsSorted (r ∷ rs) frec w v.sorted);
      fits = omega (arith, length-take brc_maxnum full.0);
    } in
    elim (Bool-cases (lt_time expire_time frec.create)) [
      | inr old ↦ rw old v
      | inl new ↦ rw new (elim (Bool-cases (is_older_than_only (r ∷ rs) frec)) [
        | inl older ↦ rw older v
        | inr other ↦ rw other added
      ])
    ]

lt_time_irrefl : (t : ℕ) → lt_time t t ≡ false
lt_time_irrefl t = ground arith

-- A record that was touched, or added, with a modification time is read at that time.
unread_modified-touch : (r : BrcRec) (m : ℕ) → unread_modified m (touch r m).0.modified ≡ 0
unfolding unread_modified touch
unread_modified-touch r m = ground arith

unread_modified_self : (m : ℕ) → unread_modified m m ≡ 0
unfolding unread_modified
unread_modified_self m = ground arith

unread_loop-add_loop :
    (list : List BrcRec) (frec : BrcRec)
    → unread_loop (add_loop list frec).0 frec.create frec.modified ≡ 0
unfolding unread_loop add_loop
unread_loop-add_loop [] frec = refl
unread_loop-add_loop (r ∷ rs) frec = elim (place r frec) [
  | same e ↦
      rw e (ground (arith, create-touch r frec.modified, unread_modified-touch r frec.modified))
  | before n l ↦ rw (n, l) (ground (arith, unread_modified_self frec.modified))
  | behind n g ↦ rw (n, g) (rw (g, n) (unread_loop-add_loop rs frec))
]

pub unread_loop-take :
    (n : ℕ) (list : List BrcRec) (f m : ℕ)
    → unread_loop list f m ≡ 0
    → unread_loop (take n list) f m ≡ 0
unfolding unread_loop
unread_loop-take zero list f m h = refl
unread_loop-take (suc n) [] f m h = refl
unread_loop-take (suc n) (r ∷ rs) f m h = ground (arith, unread_loop-take n rs f m)

pub unread_time-zero :
    (expire_time : ℕ) (list : List BrcRec) (f m : ℕ)
    → 0 < length list
    → unread_loop list f m ≡ 0
    → unread_time expire_time list f m ≡ 0
unfolding unread_time
unread_time-zero e [] f m ne h = absurd (omega arith)
unread_time-zero e (r ∷ rs) f m ne h = ground arith

pub unread_time-expired :
    (expire_time : ℕ) (list : List BrcRec) (f m : ℕ)
    → lt_time expire_time f ≡ false
    → unread_time expire_time list f m ≡ 0
unfolding unread_time
unread_time-expired e [] f m h = ground arith
unread_time-expired e (r ∷ rs) f m h = ground arith

unread_loop-only :
    (list : List BrcRec) (frec : BrcRec)
    → is_older_than_only list frec ≡ true
    → unread_loop list frec.create frec.modified ≡ 0
unfolding is_older_than_only unread_loop
unread_loop-only [] frec h = refl
unread_loop-only (r ∷ []) frec h = ground arith
unread_loop-only (r ∷ s ∷ rs) frec h = cc

pub length-add_loop :
    (r : BrcRec) (rs : List BrcRec) (frec : BrcRec) → 0 < length (add_loop (r ∷ rs) frec).0
unfolding add_loop
length-add_loop r rs frec = ground arith

-- Behind the check of the user an article that is added is found read, whatever was recorded before:
-- also if it is too old, or older than the only record.
unread_time-addlist :
    (expire_time : ℕ) (list : List BrcRec) (frec : BrcRec)
    → unread_time expire_time (addlist expire_time list frec).0 frec.create frec.modified ≡ 0
unfolding addlist
unread_time-addlist e list frec = elim (Bool-cases (lt_time e frec.create)) [
  | inr old ↦ unread_time-expired e _ frec.create frec.modified old
  | inl new ↦ go list new
]
  where
    go :
        (list : List BrcRec)
        → lt_time e frec.create ≡ true
        → unread_time e (addlist e list frec).0 frec.create frec.modified ≡ 0
    go [] new = rw new (
        unread_time-zero e _ _ _ (omega arith)
          (unfold unread_loop in ground (arith, unread_modified_self frec.modified)))
    go (r ∷ rs) new = rw new (elim (Bool-cases (is_older_than_only (r ∷ rs) frec)) [
      | inl older ↦
          rw older
            (unread_time-zero e (r ∷ rs) _ _ (omega arith) (unread_loop-only (r ∷ rs) frec older))
      | inr other ↦ rw other (
          unread_time-zero e (take brc_maxnum (add_loop (r ∷ rs) frec).0) _ _
            (omega
              (arith, length-take brc_maxnum (add_loop (r ∷ rs) frec).0, length-add_loop r rs frec))
            (unread_loop-take brc_maxnum _ _ _ (unread_loop-add_loop (r ∷ rs) frec)))
    ])

-- After `brc_addlist` of an article, for a user with a level, `brc_unread_time` finds that article read
-- at its modification time, whatever was recorded before.
pub unread_time-brc_addlist :
    (userlevel expire_time : ℕ) (list : List BrcRec) (frec : BrcRec)
    → 1 ≤ userlevel
    → unread_time expire_time
        (brc_addlist userlevel expire_time list frec).0
        frec.create
        frec.modified
      ≡ 0
unfolding brc_addlist
unread_time-brc_addlist userlevel e list frec h =
    let has_level : (userlevel == 0) ≡ false = ground arith in
    rw has_level (unread_time-addlist e list frec)
