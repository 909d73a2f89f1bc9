-- ===== src/Brc/Frame.antt =====
-- `brc_addlist` and the other articles of the board.
use brs_bbs.Prelude.{
  ℕ, ◌+◌, ◌≤◌, ◌<◌, ◌≡◌, refl, sym, ap, ◌∙◌, ◌⊎◌, inl, inr, true, false, List, [], ◌∷◌, arith, ◌==◌,
  Bool-cases, take-whole, length, take, length-take,
}
use brs_bbs.Brc.{
  BrcRec, brc_maxnum, lt_time, add_loop, is_older_than_only, addlist, unread_loop, unread_time,
}
use brs_bbs.Brc.Add.{
  same, before, behind, place, create-touch, unread_loop-take, unread_time-expired, length-add_loop,
}

unread_loop-add_loop_ne :
    (list : List BrcRec) (frec : BrcRec) (f m : ℕ)
    → (f == frec.create) ≡ false
    → unread_loop (add_loop list frec).0 f m ≡ unread_loop list f m
unfolding unread_loop add_loop
unread_loop-add_loop_ne [] frec f m ne = refl
unread_loop-add_loop_ne (r ∷ rs) frec f m ne = elim (place r frec) [
  | same e ↦ rw e (ground (arith, create-touch r frec.modified))
  | before n l ↦ rw (n, l) (ground arith)
  | behind n g ↦ rw (n, g) (ground (arith, unread_loop-add_loop_ne rs frec f m))
]

length-add_loop_le :
    (list : List BrcRec) (frec : BrcRec) → length (add_loop list frec).0 ≤ length list + 1
unfolding add_loop
length-add_loop_le [] frec = omega arith
length-add_loop_le (r ∷ rs) frec = ground (arith, length-add_loop_le rs frec)

unread_time-loop :
    (e : ℕ) (list : List BrcRec) (f m : ℕ)
    → lt_time e f ≡ true
    → 0 < length list
    → unread_time e list f m ≡ unread_loop list f m
unfolding unread_time
unread_time-loop e [] f m new ne = absurd (omega arith)
unread_time-loop e (r ∷ rs) f m new ne = ground arith

-- What `brc_addlist` does to a list that is not empty.
addlist-cases :
    (e : ℕ) (r : BrcRec) (rs : List BrcRec) (frec : BrcRec)
    → ((addlist e (r ∷ rs) frec).0 ≡ r ∷ rs)
      ⊎ ((addlist e (r ∷ rs) frec).0 ≡ take brc_maxnum (add_loop (r ∷ rs) frec).0)
unfolding addlist
addlist-cases e r rs frec = elim (Bool-cases (lt_time e frec.create)) [
  | inr old ↦ rw old (inl refl)
  | inl new ↦ rw new (elim (Bool-cases (is_older_than_only (r ∷ rs) frec)) [
    | inl older ↦ rw older (inl refl)
    | inr other ↦ rw other (inr refl)
  ])
]

-- Where the board has records, `brc_addlist` of one article changes no answer of `brc_unread_time`
-- about another if the list has room; if it is full, an article that was read stays read.
pub unread_time-addlist_ne :
    (e : ℕ) (list : List BrcRec) (frec : BrcRec) (f m : ℕ)
    → 0 < length list
    → (f == frec.create) ≡ false
    → let after = unread_time e (addlist e list frec).0 f m in
      (length list < brc_maxnum → after ≡ unread_time e list f m)
      × (unread_time e list f m ≡ 0 → after ≡ 0)
unread_time-addlist_ne e [] frec f m more ne = absurd (omega arith)
unread_time-addlist_ne e (r ∷ rs) frec f m more ne = elim (Bool-cases (lt_time e f)) [
  | inr old ↦
      let a = unread_time-expired e (addlist e (r ∷ rs) frec).0 f m old in
      let b = unread_time-expired e (r ∷ rs) f m old in (λ _. a ∙ sym b, λ _. a)
  | inl new ↦ elim (addlist-cases e r rs frec) [
    | inl unchanged ↦ rw unchanged (λ _. refl, λ h. h)
    | inr added ↦
        let full = (add_loop (r ∷ rs) frec).0 in
        let others = unread_loop-add_loop_ne (r ∷ rs) frec f m ne in
        let before_ = unread_time-loop e (r ∷ rs) f m new more in
        let some_left : 0 < length (take brc_maxnum full) =
          omega (arith, length-take brc_maxnum full, length-add_loop r rs frec) in
        let after_ = unread_time-loop e (take brc_maxnum full) f m new some_left in
        rw added (
          λ room.
              after_
              ∙ ap (λ l. unread_loop l f m)
                  (take-whole brc_maxnum full (omega (arith, length-add_loop_le (r ∷ rs) frec)))
              ∙ others
              ∙ sym before_,
          λ h. after_ ∙ unread_loop-take brc_maxnum full f m (others ∙ sym before_ ∙ h),
        )
  ]
]
