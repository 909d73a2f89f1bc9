-- ===== src/Reversi/Marks.antt =====
-- `caculate_hint` marks exactly the legal places, although it changes the board as it goes.
use brs_bbs.Prelude.{
  ℕ, zero, suc, ◌+◌, ◌-◌, ◌≤◌, ◌<◌, ◌≡◌, refl, ap₂, ◌∙◌, ◌⊎◌, inl, inr, Bool, true, false, List, [],
  ◌∷◌, ◌++◌, arith, ◌==◌, if◌then◌else◌, Bool-cases, length,
}
use brs_bbs.Prelude.Bytes.{at}
use brs_bbs.Reversi.{
  Board, black, white, no_chess, hint, spot, cell, put, can_put, row, rows, places, hint_at,
  hint_loop, caculate_hint,
}
use brs_bbs.Reversi.Walk.{IsFramed, IsInside}
use brs_bbs.Reversi.Flip.{at-set_eq, at-set_ne}
use brs_bbs.Reversi.Hint.{Similar, Similar-refl, Similar-trans, Similar-put, can_put-Similar}

-- What a place should show: computed from the board as it was.
unfoldable pub marked : Board → ℕ → ℕ → ℕ → ℕ
marked b who x y =
    if can_put b who x y then hint else if cell b x y == hint then no_chess else cell b x y

-- The number of legal places.
unfoldable pub legal_count : Board → ℕ → List (ℕ × ℕ) → ℕ
legal_count b who [] = 0
legal_count b who ((x, y) ∷ ps) = (if can_put b who x y then 1 else 0) + legal_count b who ps

abbrev mem : ℕ → List (ℕ × ℕ) → Bool
mem q [] = false
mem q ((x, y) ∷ ps) = if q == spot x y then true else mem q ps

abbrev distinct : List (ℕ × ℕ) → Bool
distinct [] = true
distinct ((x, y) ∷ ps) = if mem (spot x y) ps then false else distinct ps

abbrev AreInside : List (ℕ × ℕ) → Type 0
AreInside [] = Unit {0}
AreInside ((x, y) ∷ ps) = IsInside x y × AreInside ps

mem-append :
    (q : ℕ) (ps qs : List (ℕ × ℕ)) → mem q ps ≡ true ⊎ mem q qs ≡ true → mem q (ps ++ qs) ≡ true
mem-append q [] qs h = ground arith
mem-append q ((x, y) ∷ ps) qs h = ground (arith, mem-append q ps qs)

mem-row : (x y n : ℕ) → n ≤ 8 → y ≤ 8 → 9 ≤ y + n → mem (spot x y) (row n x) ≡ true
mem-row x y zero h k l = absurd (omega arith)
mem-row x y (suc n) h k l = ground (arith, mem-row x y n)

mem-rows : (x y n : ℕ) → n ≤ 8 → x ≤ 8 → 9 ≤ x + n → 1 ≤ y → y ≤ 8 → mem (spot x y) (rows n) ≡ true
mem-rows x y zero h k l a c = absurd (omega arith)
mem-rows x y (suc n) h k l a c = elim (Bool-cases (x == 8 - n)) [
  | inl e ↦
      let e' : x ≡ 8 - n = ground arith in
      mem-append (spot x y) (row 8 (8 - n)) (rows n)
        (inl (rw e' (mem-row (8 - n) y 8 (omega arith) c (omega arith))))
  | inr e ↦
      mem-append (spot x y) (row 8 (8 - n)) (rows n)
        (inr (mem-rows x y n (omega arith) k (ground arith) a c))
]

pub mem-places : (x y : ℕ) → IsInside x y → mem (spot x y) places ≡ true
mem-places x y (a, c, e, f) = mem-rows x y 8 (omega arith) c (omega arith) e f

module _ (who : ℕ) (player : (who ≡ black) ⊎ (who ≡ white)) where
  can_put-blank : (b : Board) (x y : ℕ) → can_put b who x y ≡ true → cell b x y < black
  unfolding can_put
  can_put-blank b x y h = ground arith

  distinct-cases : (m d : Bool) → (if m then false else d) ≡ true → (m ≡ false) × (d ≡ true)
  distinct-cases true d h = absurd (ground arith)
  distinct-cases false d h = (refl, h)

  marked-Similar :
      {b b' : Board}
      → Similar b b'
      → (x y : ℕ) → cell b' x y ≡ cell b x y
      → marked b' who x y ≡ marked b who x y
  unfolding marked
  marked-Similar s x y e = rw (can_put-Similar s who player x y, e) refl

  legal_count-Similar :
      {b b' : Board}
      → Similar b b'
      → (ps : List (ℕ × ℕ)) → legal_count b' who ps ≡ legal_count b who ps
  unfolding legal_count
  legal_count-Similar s [] = refl
  legal_count-Similar s ((x, y) ∷ ps) =
      rw (can_put-Similar s who player x y, legal_count-Similar s ps) refl

  -- One place: what it shows, what it adds to the count, and that no other place changes.
  hint_at-marked :
      (b : Board) (x y : ℕ)
      → spot x y < length b
      → let r = hint_at b who (x, y) in
        (cell r.0 x y ≡ marked b who x y)
        × (r.1 ≡ (if can_put b who x y then 1 else 0))
        × ((q : ℕ) → (q == spot x y) ≡ false → at r.0 q ≡ at b q)
        × Similar b r.0
  unfolding hint_at marked
  hint_at-marked b x y l =
      let p = spot x y in
      elim (Bool-cases (cell b x y == hint)) [
        | inl h ↦
            let b1 = put b x y no_chess in
            let s1 = Similar-put b x y no_chess (ground arith) l (omega arith) in
            let l1 : p < length b1 = omega (arith, l, s1.size) in
            let c1 = can_put-Similar s1 who player x y in
            let zero_at = at-set_eq b p no_chess l in
            rw (h, c1)
              (elim (Bool-cases (can_put b who x y)) [
                | inl c ↦ rw c (
                  at-set_eq b1 p hint l1,
                  refl,
                  λ q n. at-set_ne b1 p hint q n ∙ at-set_ne b p no_chess q n,
                  Similar-trans s1
                      (Similar-put b1 x y hint (omega (arith, zero_at)) l1 (omega arith)),
                )
                | inr c ↦ rw c (zero_at, refl, λ q n. at-set_ne b p no_chess q n, s1)
              ])
        | inr h ↦ rw h (elim (Bool-cases (can_put b who x y)) [
          | inl c ↦ rw c (
            at-set_eq b p hint l,
            refl,
            λ q n. at-set_ne b p hint q n,
            Similar-put b x y hint (can_put-blank b x y c) l (omega arith),
          )
          | inr c ↦ rw c (refl, refl, λ q n. refl, Similar-refl b)
        ])
      ]

  -- All places of a list without repetition.
  hint_loop-marked :
      (b : Board) (ps : List (ℕ × ℕ))
      → length b ≡ 100
      → AreInside ps
      → distinct ps ≡ true
      → let r = hint_loop b who ps in
        ((x y : ℕ) → mem (spot x y) ps ≡ true → IsInside x y → cell r.0 x y ≡ marked b who x y)
        × ((q : ℕ) → mem q ps ≡ false → at r.0 q ≡ at b q)
        × (r.1 ≡ legal_count b who ps)
        × Similar b r.0
  unfolding hint_loop legal_count
  hint_loop-marked b [] l ins di =
      (λ x y m. absurd (ground arith), λ q m. refl, refl, Similar-refl b)
  hint_loop-marked b ((u, v) ∷ ps) l (in_, ins) di =
      let b1 = (hint_at b who (u, v)).0 in
      let (here, adds, others, s1) = hint_at-marked b u v (omega arith) in
      let (apart, di') = distinct-cases (mem (spot u v) ps) (distinct ps) di in
      let (rest, kept, counts, s2) = hint_loop-marked b1 ps (s1.size ∙ l) ins di' in
      (
        λ x y m i. elim (Bool-cases (spot x y == spot u v)) [
          | inl e ↦
              let ex : x ≡ u = ground arith in
              let ey : y ≡ v = ground arith in rw (ex, ey) (kept (spot u v) apart ∙ here)
          | inr n ↦ rest x y (rw n at m) i ∙ marked-Similar s1 x y (others (spot x y) n)
        ],
        λ q m. elim (Bool-cases (q == spot u v)) [
          | inl e ↦ absurd (ground arith)
          | inr n ↦ kept q (rw n at m) ∙ others q n
        ],
        ap₂ ◌+◌ adds (counts ∙ legal_count-Similar s1 ps),
        Similar-trans s1 s2,
      )

-- After `caculate_hint` each of the 64 places shows a hint exactly if the player may put a piece
-- there, and no old hint is left; the result is the number of these places; and the pieces are as
-- they were.
pub caculate_hint-marks :
    (b : Board) (who : ℕ)
    → IsFramed b
    → (who ≡ black) ⊎ (who ≡ white)
    → let r = caculate_hint b who in
      ((x y : ℕ) → IsInside x y → cell r.0 x y ≡ marked b who x y)
      × (r.1 ≡ legal_count b who places)
      × Similar b r.0
unfolding caculate_hint
caculate_hint-marks b who f player =
    let (shown, _, counts, s) = hint_loop-marked who player b places f.size (ground arith) refl in
    (λ x y i. shown x y (mem-places x y i) i, counts, s)
