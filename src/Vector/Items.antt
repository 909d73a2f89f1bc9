-- ===== src/Vector/Items.antt =====
-- Searching and removing: the last name takes the place of the one removed.
use brs_bbs.Prelude.{
  ℕ, zero, suc, ◌+◌, ◌-◌, ◌*◌, ◌≤◌, ◌<◌, ◌≡◌, refl, sym, ap, ◌∙◌, inl, inr, Bool, true, false,
  Option, none, some, List, [], ◌∷◌, arith, ◌==◌, if◌then◌else◌, Bool-cases, List-cases, take-whole,
  length, set, length-set, take, length-take,
}
use brs_bbs.Prelude.Case.{is_same_name}
use brs_bbs.Vector.{Name, Vector, int_max, resize, name_at, kept, search_loop, search, remove}
use brs_bbs.Vector.Capacity.{IsValid, resize-room}

-- How many names of a list have a property.
pub count : (Name → Bool) → List Name → ℕ
count p [] = 0
count p (x ∷ xs) = (if p x then 1 else 0) + count p xs

-- The first place of the name among the first `n`, if there is one.
abbrev pub IsFirst : List Name → ℕ → ℕ → Name → Option ℕ → Type 0
IsFirst base i n name none =
    (j : ℕ) → i ≤ j → j < i + n → is_same_name (name_at base j) name ≡ false
IsFirst base i n name (some k) =
    (i ≤ k)
    × (k < i + n)
    × (is_same_name (name_at base k) name ≡ true)
    × ((j : ℕ) → i ≤ j → j < k → is_same_name (name_at base j) name ≡ false)

IsFirst-later :
    (base : List Name) (i n : ℕ) (name : Name) (o : Option ℕ)
    → is_same_name (name_at base i) name ≡ false
    → IsFirst base (i + 1) n name o
    → IsFirst base i (suc n) name o
IsFirst-later base i n name none e f = λ j l k. elim (Bool-cases (j == i)) [
  | inl here ↦ let j' : j ≡ i = ground arith in rw j' e
  | inr past ↦ f j (ground arith) (omega arith)
]
IsFirst-later base i n name (some k) e (low, high, same, others) = (
  omega arith,
  omega arith,
  same,
  λ j l m. elim (Bool-cases (j == i)) [
    | inl here ↦ let j' : j ≡ i = ground arith in rw j' e
    | inr past ↦ others j (ground arith) m
  ],
)

search_loop-IsFirst :
    (n : ℕ) (base : List Name) (i : ℕ) (name : Name)
    → IsFirst base i n name (search_loop n base i name)
unfolding search_loop
search_loop-IsFirst zero base i name = λ j l k. absurd (omega arith)
search_loop-IsFirst (suc n) base i name =
    let rest = search_loop-IsFirst n base (i + 1) name in
    elim (Bool-cases (is_same_name (name_at base i) name)) [
      | inl e ↦ rw e (omega arith, omega arith, e, λ j l k. absurd (omega arith))
      | inr e ↦ rw e (IsFirst-later base i n name (search_loop n base (i + 1) name) e rest)
    ]

count-set :
    (p : Name → Bool) (xs : List Name) (i : ℕ) (y : Name)
    → i < length xs
    → count p (set xs i y) + (if p (name_at xs i) then 1 else 0)
      ≡ count p xs + (if p y then 1 else 0)
unfolding count
count-set p [] i y h = absurd (omega arith)
count-set p (x ∷ xs) zero y h = omega arith
count-set p (x ∷ xs) (suc i) y h = omega (arith, count-set p xs i y (omega arith))

-- The last name apart.
count-take_last :
    (p : Name → Bool) (n : ℕ) (xs : List Name)
    → length xs ≡ suc n
    → count p xs ≡ count p (take n xs) + (if p (name_at xs n) then 1 else 0)
unfolding count
count-take_last p n [] h = absurd (omega arith)
count-take_last p zero (x ∷ []) h = omega arith
count-take_last p zero (x ∷ y ∷ ys) h = absurd (omega arith)
count-take_last p (suc n) (x ∷ xs) h = omega (arith, count-take_last p n xs (omega arith))

name_at-set :
    (xs : List Name) (i : ℕ) (y : Name) (j : ℕ)
    → j < length xs
    → name_at (set xs i y) j ≡ (if i == j then y else name_at xs j)
name_at-set [] i y j h = absurd (omega arith)
name_at-set (x ∷ xs) zero y zero h = refl
name_at-set (x ∷ xs) zero y (suc j) h = ground arith
name_at-set (x ∷ xs) (suc i) y zero h = ground arith
name_at-set (x ∷ xs) (suc i) y (suc j) h = ground (arith, name_at-set xs i y j)

name_at-take : (n : ℕ) (xs : List Name) (j : ℕ) → j < n → name_at (take n xs) j ≡ name_at xs j
name_at-take zero xs j h = absurd (omega arith)
name_at-take (suc n) [] j h = refl
name_at-take (suc n) (x ∷ xs) zero h = refl
name_at-take (suc n) (x ∷ xs) (suc j) h = name_at-take n xs j (omega arith)

-- What `Vector_remove` leaves of the names, with the last in the place `i`.
abbrev moved : List Name → ℕ → ℕ → List Name
moved base n i = take n (set base i (name_at base n))

count-moved :
    (p : Name → Bool) (base : List Name) (n i : ℕ)
    → length base ≡ suc n
    → i < suc n
    → count p (moved base n i) + (if p (name_at base i) then 1 else 0) ≡ count p base
count-moved p base n i h l =
    let y = name_at base n in
    let last = name_at-set base i y n (omega arith) in
    let same : name_at (set base i y) n ≡ y = elim (Bool-cases (i == n)) [
      | inl e ↦ rw (last, e) refl
      | inr e ↦ rw (last, e) refl
    ] in
    let split = count-take_last p n (set base i y) (omega (arith, length-set base i y)) in
    omega (arith, count-set p base i y (omega arith), rw same at split)

-- Shrinking keeps the names, and all is given back with the last of them.
resize-names :
    (v : Vector) (n : ℕ)
    → v.constant ≡ false
    → 1 ≤ v.size
    → length v.base ≡ n
    → n * v.size ≤ v.capacity
    → v.capacity ≤ int_max
    → (w : Vector) × (resize v n ≡ some w)
      × (n * v.size ≤ w.capacity)
      × (w.base ≡ v.base)
      × (w.size ≡ v.size)
      × (w.constant ≡ false)
      × (w.length_ ≡ v.length_)
      × (w.capacity ≤ int_max)
unfolding resize
resize-names v zero own sz h r cap = elim (List-cases v.base) [
  | inr (x, xs, e) ↦ absurd (let l = ap length e in omega (arith, l))
  | inl e ↦
      let nothing : (0 * v.size == 0) ≡ true = ground arith in
      (
        record v { capacity = 0; base = []; allocated = false },
        rw (own, nothing) (ground arith),
        omega arith,
        sym e,
        refl,
        own,
        refl,
        omega arith,
      )
]
resize-names v (suc n) own sz h r cap =
    let (w, e, room, _, names, size, owned, len, cap') =
      resize-room v (suc n) own (positive n v.size sz) cap (inl r) in
    (w, e, room, names, size, owned, len, cap')
  where
    positive : (n s : ℕ) → 1 ≤ s → 1 ≤ suc n * s
    positive n s h = grind arith

less_room : (n l s c : ℕ) → n ≤ l → l * s ≤ c → n * s ≤ c
less_room n l s c h r = grind arith

-- What `Vector_remove` does, by the place that the search found.
abbrev pub Removes : Vector → Name → Option ℕ → Type 0
Removes v name none = remove v name ≡ some (0, v)
Removes v name (some i) =
    (w : Vector) × (remove v name ≡ some (1, w))
    × IsValid w
    × (suc w.length_ ≡ v.length_)
    × ((p : Name → Bool)
        → count p w.base + (if p (name_at v.base i) then 1 else 0) ≡ count p v.base)

-- On a valid vector `Vector_search` returns the place of the first name equal to the one sought but
-- for case, and -1 if there is none. `Vector_remove` then changes nothing; else it takes exactly one
-- name out, the one that was found: of the other names there are as many as before, though not in
-- the same order. The vector stays valid.
pub search-remove :
    (v : Vector) (name : Name)
    → IsValid v
    → IsFirst v.base 0 v.length_ name (search v name) × Removes v name (search v name)
unfolding search remove
search-remove v name ok =
    let found = search_loop v.length_ v.base 0 name in
    (
      search_loop-IsFirst v.length_ v.base 0 name,
      removes found refl (search_loop-IsFirst v.length_ v.base 0 name),
    )
  where
    removes :
        (o : Option ℕ)
        → search_loop v.length_ v.base 0 name ≡ o
        → IsFirst v.base 0 v.length_ name o
        → Removes v name o
    removes none e f = simp (ok.owned, e)
    removes (some i) e (_, high, _, _) =
        let n = v.length_ - 1 in
        let counted : length v.base ≡ suc n = omega (arith, ok.counted) in
        let y = name_at v.base n in
        let last : kept v.size y ≡ y =
          take-whole (v.size - 1) y (omega (arith, ok.short n (omega arith))) in
        let base = moved v.base n i in
        let shrunk : length base ≡ n =
          omega (arith, length-take n (set v.base i y), length-set v.base i y) in
        let u : Vector = record v { base = base; length_ = n } in
        let (w, r, room, names, size, own, len, cap) =
          resize-names u n ok.owned ok.sized shrunk
            (less_room n v.length_ v.size v.capacity (omega arith) ok.room) ok.fits_int in
        (
          w,
          rw (ok.owned, e, last, r) refl,
          record {
            sized = omega (arith, size, ok.sized);
            owned = own;
            counted = omega (arith, ap length names, len, shrunk);
            short = λ j l.
                let j_in : j < n = omega (arith, len) in
                let at_j =
                  name_at-take n (set v.base i y) j j_in ∙ name_at-set v.base i y j (omega arith) in
                rw (names, size, at_j)
                  (elim (Bool-cases (i == j)) [
                    | inl here ↦ rw here (ok.short n (omega arith))
                    | inr other ↦ rw other (ok.short j (omega arith))
                  ]);
            room = rw (len, size) room;
            fits_int = cap;
          },
          omega (arith, len),
          λ p. rw names (count-moved p v.base n i counted (omega arith)),
        )
