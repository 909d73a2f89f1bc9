-- ===== src/Vector/Capacity.antt =====
-- The storage of a vector grows before it is written to.
use brs_bbs.Prelude.{
  ℕ, zero, suc, ◌+◌, ◌-◌, ◌*◌, ◌^◌, ◌≤◌, ◌<◌, ◌≡◌, refl, ◌⊎◌, inl, inr, true, false, some, List, [],
  ◌∷◌, ◌++◌, arith, ltb, ◌==◌, if◌then◌else◌, ltb→lt, Bool-cases, length, length-append,
  length-take,
}
use brs_bbs.Vector.{int_max, Name, Vector, min_capacity, double_loop, resize, name_at, kept, add}

-- Names as many as counted, each with room for its NUL, in storage that holds them and whose size is
-- an `int`.
pub record IsValid (v : Vector) : Type 0 where
  pub sized : 1 ≤ v.size
  pub owned : v.constant ≡ false
  pub counted : length v.base ≡ v.length_
  pub short : (i : ℕ) → i < v.length_ → length (name_at v.base i) < v.size
  pub room : v.length_ * v.size ≤ v.capacity
  pub fits_int : v.capacity ≤ int_max

-- The loop ends at the first doubling that is enough.
doubled : (have want : ℕ) → have < want → 2 * want ≤ int_max + 2 → ltb int_max (have * 2) ≡ false
doubled have want l h = ground arith

double_loop-ends :
    (fuel have want : ℕ)
    → 1 ≤ have
    → 1 ≤ fuel
    → want < fuel + have
    → (have < want → 2 * want ≤ int_max + 2)
    → (got : ℕ) × (double_loop fuel have want ≡ some got)
      × (want ≤ got)
      × ((got ≡ have) ⊎ ((have < want) × (got < 2 * want)))
unfolding double_loop
double_loop-ends zero have want h p f small = absurd (omega arith)
double_loop-ends (suc fuel) have want h p f small = elim (Bool-cases (ltb have want)) [
  | inr enough ↦ (have, rw enough refl, ground arith, inl refl)
  | inl less ↦
      let l = ltb→lt have want less in
      let (got, e, w, b) =
        double_loop-ends fuel (have * 2) want (omega arith) (omega arith) (omega arith)
          (λ m. small l) in
      let fits : ltb int_max (have * 2) ≡ false = doubled have want l (small l) in
      (got, rw (less, fits) e, w, ground arith)
]

-- Storage that is enough, or a need of which twice as much is still an `int`.
abbrev pub Affords : Vector → ℕ → Type 0
Affords v n = (n * v.size ≤ v.capacity) ⊎ (n * v.size ≤ 2 ^ 30)

pub resize-room :
    (v : Vector) (n : ℕ)
    → v.constant ≡ false
    → 1 ≤ n * v.size
    → v.capacity ≤ int_max
    → Affords v n
    → (w : Vector) × (resize v n ≡ some w)
      × (n * v.size ≤ w.capacity)
      × ((w.capacity ≡ v.capacity) ⊎ (w.capacity ≡ min_capacity) ⊎ (w.capacity < 2 * (n * v.size)))
      × (w.base ≡ v.base)
      × (w.size ≡ v.size)
      × (w.constant ≡ false)
      × (w.length_ ≡ v.length_)
      × (w.capacity ≤ int_max)
unfolding resize
resize-room v n own some_room cap afford =
    let want = n * v.size in
    let start = if v.capacity == 0 then min_capacity else v.capacity in
    let nonzero : (want == 0) ≡ false = ground arith in
    let positive : 1 ≤ start = ground arith in
    let (got, e, enough, bound) =
      double_loop-ends (want + 1) start want positive (omega arith) (omega arith)
        (less_then v.capacity want afford) in
    let fits : ltb int_max want ≡ false = ground (arith, afford, cap) in
    (
      record v { capacity = got; allocated = true },
      rw (own, fits, nonzero, e) refl,
      enough,
      which v.capacity got want bound,
      refl,
      refl,
      own,
      refl,
      at_most v.capacity got want cap afford bound,
    )
  where
    less_then :
        (c want : ℕ)
        → (want ≤ c) ⊎ (want ≤ 2 ^ 30)
        → (if c == 0 then min_capacity else c) < want
        → 2 * want ≤ int_max + 2
    less_then c want h l = ground arith

    at_most :
        (c got want : ℕ)
        → c ≤ int_max
        → (want ≤ c) ⊎ (want ≤ 2 ^ 30)
        → (got ≡ (if c == 0 then min_capacity else c))
          ⊎ (((if c == 0 then min_capacity else c) < want) × (got < 2 * want))
        → got ≤ int_max
    at_most c got want k h b = ground arith

    which :
        (c got want : ℕ)
        → (got ≡ (if c == 0 then min_capacity else c))
          ⊎ (((if c == 0 then min_capacity else c) < want) × (got < 2 * want))
        → (got ≡ c) ⊎ (got ≡ min_capacity) ⊎ (got < 2 * want)
    which c got want h = ground arith

name_at-append :
    (xs : List Name) (y : Name) (i : ℕ)
    → i < length xs + 1
    → name_at (xs ++ y ∷ []) i ≡ (if i == length xs then y else name_at xs i)
name_at-append [] y zero h = refl
name_at-append [] y (suc i) h = absurd (omega arith)
name_at-append (x ∷ xs) y zero h = ground arith
name_at-append (x ∷ xs) y (suc i) h = ground (arith, name_at-append xs y i)

-- `Vector_add` to a valid vector, where all the slots with the new one take at most 2^30 bytes,
-- overflows no `int`; it puts the name, cut to the size of a slot, behind the
-- others, and the storage holds the slot before it is written: it is the storage there was, 4096
-- bytes, or less than twice what is needed. The vector stays valid.
pub add-IsValid :
    (v : Vector) (name : Name)
    → IsValid v
    → (v.length_ + 1) * v.size ≤ 2 ^ 30
    → (w : Vector) × (add v name ≡ some w)
      × IsValid w
      × (w.base ≡ v.base ++ kept v.size name ∷ [])
      × (w.size ≡ v.size)
      × ((v.length_ + 1) * v.size ≤ w.capacity)
      × ((w.capacity ≡ v.capacity)
          ⊎ (w.capacity ≡ min_capacity)
          ⊎ (w.capacity < 2 * ((v.length_ + 1) * v.size)))
unfolding add
add-IsValid v name ok small =
    let n = v.length_ + 1 in
    let (w, e, room, bound, same_base, same_size, own, _, cap) =
      resize-room v n ok.owned (positive v.length_ v.size ok.sized) ok.fits_int (inr small) in
    let base = v.base ++ kept v.size name ∷ [] in
    (
      record w { base = base; length_ = n },
      rw e refl,
      record {
        sized = omega (arith, same_size, ok.sized);
        owned = own;
        counted = omega (arith, length-append v.base (kept v.size name ∷ []), ok.counted);
        short = λ i l.
            let at_i = name_at-append v.base (kept v.size name) i (omega (arith, ok.counted)) in
            rw (same_size, at_i)
              (elim (Bool-cases (i == length v.base)) [
                | inl last ↦ rw last (omega (arith, length-take (v.size - 1) name, ok.sized))
                | inr before ↦ rw before (ok.short i (ground (arith, ok.counted)))
              ]);
        room = rw same_size room;
        fits_int = cap;
      },
      refl,
      same_size,
      room,
      bound,
    )
  where
    positive : (n s : ℕ) → 1 ≤ s → 1 ≤ (n + 1) * s
    positive n s h = grind arith
