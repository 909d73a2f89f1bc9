-- ===== src/Uhash/Slots.antt =====
-- Chains of links: what a write of one slot leaves alone.
use brs_bbs.Prelude.{
  ℕ, zero, suc, ◌<◌, ◌≡◌, refl, ◌∙◌, ◌⊎◌, inl, inr, Bool, true, false, not, none, some, List, [],
  ◌∷◌, arith, ◌==◌, if◌then◌else◌, length, set, length-set,
}
use brs_bbs.Uhash.{Link, Shm, Slot, in_head, in_next, link_at, load, store}

abbrev pub elem : ℕ → List ℕ → Bool
elem n [] = false
elem n (k ∷ ks) = if n == k then true else elem n ks

abbrev pub same_slot : Slot → Slot → Bool
same_slot (in_head h) (in_head i) = h == i
same_slot (in_head h) (in_next n) = false
same_slot (in_next k) (in_head i) = false
same_slot (in_next k) (in_next n) = k == n

-- The links from `p` go through `ks` to the end.
abbrev pub IsChain : Shm → Slot → List ℕ → Type 0
IsChain s p [] = load s p ≡ none
IsChain s p (k ∷ ks) = (load s p ≡ some k) × IsChain s (in_next k) ks

-- `q` is none of the slots of the chain from `p` through `ks`.
abbrev pub avoids : Slot → Slot → List ℕ → Bool
avoids q p [] = not (same_slot q p)
avoids q p (k ∷ ks) = if same_slot q p then false else avoids q (in_next k) ks

abbrev pub SlotOf : Slot → Slot → List ℕ → Type 0
SlotOf q p [] = q ≡ p
SlotOf q p (k ∷ ks) = (q ≡ p) ⊎ SlotOf q (in_next k) ks

-- No user is in the chain twice.
abbrev pub nodup : List ℕ → Bool
nodup [] = true
nodup (k ∷ ks) = if elem k ks then false else nodup ks

-- The slot lies in its array.
abbrev pub InRange : Shm → Slot → Type 0
InRange s (in_head h) = h < length s.hash_head
InRange s (in_next n) = n < length s.next_in_hash

pub link_at-set_eq :
    (xs : List Link) (i : ℕ) (v : Link) → i < length xs → link_at (set xs i v) i ≡ v
link_at-set_eq [] i v h = absurd (omega arith)
link_at-set_eq (x ∷ xs) zero v h = refl
link_at-set_eq (x ∷ xs) (suc i) v h = link_at-set_eq xs i v (omega arith)

link_at-set_ne :
    (xs : List Link) (i j : ℕ) (v : Link) → (i == j) ≡ false → link_at (set xs i v) j ≡ link_at xs j
link_at-set_ne [] i j v n = refl
link_at-set_ne (x ∷ xs) zero zero v n = absurd (ground arith)
link_at-set_ne (x ∷ xs) zero (suc j) v n = refl
link_at-set_ne (x ∷ xs) (suc i) zero v n = refl
link_at-set_ne (x ∷ xs) (suc i) (suc j) v n = link_at-set_ne xs i j v (ground arith)

pub load-store_eq : (s : Shm) (p : Slot) (v : Link) → InRange s p → load (store s p v) p ≡ v
unfolding load store
load-store_eq s (in_head h) v r = link_at-set_eq s.hash_head h v r
load-store_eq s (in_next n) v r = link_at-set_eq s.next_in_hash n v r

pub load-store_ne :
    (s : Shm) (q p : Slot) (v : Link) → same_slot q p ≡ false → load (store s q v) p ≡ load s p
unfolding load store
load-store_ne s (in_head h) (in_head i) v n = link_at-set_ne s.hash_head h i v n
load-store_ne s (in_head h) (in_next k) v n = refl
load-store_ne s (in_next k) (in_head i) v n = refl
load-store_ne s (in_next k) (in_next m) v n = link_at-set_ne s.next_in_hash k m v n

-- A write outside a chain leaves it alone.
pub store-IsChain :
    (s : Shm) (q p : Slot) (v : Link) (ks : List ℕ)
    → avoids q p ks ≡ true
    → IsChain s p ks
    → IsChain (store s q v) p ks
store-IsChain s q p v [] a c = load-store_ne s q p v (ground arith) ∙ c
store-IsChain s q p v (k ∷ ks) a (c, cs) =
    let n : same_slot q p ≡ false = ground arith in
    (load-store_ne s q p v n ∙ c, store-IsChain s q (in_next k) v ks (rw n at a) cs)

-- The slots of a chain without repetition are different.
pub avoids-next :
    (n k : ℕ) (ks : List ℕ)
    → (n == k) ≡ false
    → elem n ks ≡ false
    → avoids (in_next n) (in_next k) ks ≡ true
avoids-next n k [] h e = rw h refl
avoids-next n k (j ∷ js) h e = rw h (avoids-next n j js (ground arith) (ground arith))

pub avoids-head : (h k : ℕ) (ks : List ℕ) → avoids (in_head h) (in_next k) ks ≡ true
avoids-head h k [] = refl
avoids-head h k (j ∷ js) = avoids-head h j js

pub next-avoids_head :
    (n h : ℕ) (ks : List ℕ) → elem n ks ≡ false → avoids (in_next n) (in_head h) ks ≡ true
next-avoids_head n h [] e = refl
next-avoids_head n h (k ∷ ks) e = avoids-next n k ks (ground arith) (ground arith)

SlotOf-cases :
    (q p : Slot) (ks : List ℕ)
    → SlotOf q p ks
    → (q ≡ p) ⊎ ((k : ℕ) × (elem k ks ≡ true) × (q ≡ in_next k))
SlotOf-cases q p [] m = inl m
SlotOf-cases q p (k ∷ ks) (inl e) = inl e
SlotOf-cases q p (k ∷ ks) (inr m) = elim (SlotOf-cases q (in_next k) ks m) [
  | inl e ↦ inr (k, ground arith, e)
  | inr (j, el, e) ↦ inr (j, ground arith, e)
]

-- The slots of one chain avoid a chain from another head with no user in common.
pub SlotOf-avoids :
    (q : Slot) (h i : ℕ) (ks js : List ℕ)
    → (h == i) ≡ false
    → ((k : ℕ) → elem k ks ≡ true → elem k js ≡ false)
    → SlotOf q (in_head h) ks
    → avoids q (in_head i) js ≡ true
SlotOf-avoids q h i ks js n apart m = elim (SlotOf-cases q (in_head h) ks m) [
  | inl e ↦ rw e (heads js)
  | inr (k, el, e) ↦ rw e (next-avoids_head k i js (apart k el))
]
  where
    heads : (js : List ℕ) → avoids (in_head h) (in_head i) js ≡ true
    heads [] = rw n refl
    heads (j ∷ js) = rw n (avoids-head h j js)

-- No slot of the chain is met again behind it.
abbrev pub linear : Slot → List ℕ → Bool
linear p [] = true
linear p (k ∷ ks) = if avoids p (in_next k) ks then linear (in_next k) ks else false

linear-next : (k : ℕ) (ks : List ℕ) → nodup (k ∷ ks) ≡ true → linear (in_next k) ks ≡ true
linear-next k [] h = refl
linear-next k (j ∷ js) h =
    let a = avoids-next k j js (ground arith) (ground arith) in
    rw a (linear-next j js (ground arith))

pub linear-head : (h : ℕ) (ks : List ℕ) → nodup ks ≡ true → linear (in_head h) ks ≡ true
linear-head h [] d = refl
linear-head h (k ∷ ks) d = rw (avoids-head h k ks) (linear-next k ks d)

same_slot_comm : (p q : Slot) → same_slot p q ≡ same_slot q p
same_slot_comm (in_head h) (in_head i) = ground arith
same_slot_comm (in_head h) (in_next n) = refl
same_slot_comm (in_next k) (in_head i) = refl
same_slot_comm (in_next k) (in_next n) = ground arith

pub avoids-SlotOf :
    (r q p : Slot) (ks : List ℕ) → avoids r p ks ≡ true → SlotOf q p ks → same_slot q r ≡ false
avoids-SlotOf r q p [] a m = rw m (let e = same_slot_comm p r in ground arith)
avoids-SlotOf r q p (k ∷ ks) a (inl m) = rw m (let e = same_slot_comm p r in ground arith)
avoids-SlotOf r q p (k ∷ ks) a (inr m) = avoids-SlotOf r q (in_next k) ks (ground arith) m

pub store-InRange : (s : Shm) (q p : Slot) (v : Link) → InRange s p → InRange (store s q v) p
unfolding store
store-InRange s (in_head h) (in_head i) v r = omega (arith, length-set s.hash_head h v)
store-InRange s (in_head h) (in_next n) v r = r
store-InRange s (in_next k) (in_head i) v r = r
store-InRange s (in_next k) (in_next n) v r = omega (arith, length-set s.next_in_hash k v)
