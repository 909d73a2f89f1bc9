-- ===== src/Uhash/Parts.antt =====
-- The ids beside the links, and a user put behind a chain.
use brs_bbs.Prelude.{
  ℕ, zero, suc, ◌<◌, ◌≡◌, refl, true, false, List, [], ◌∷◌, ◌++◌, arith, ◌==◌, if◌then◌else◌,
  length, set, length-set,
}
use brs_bbs.Uhash.{Link, Shm, Slot, in_head, in_next, load, store, id_at}
use brs_bbs.Uhash.Slots.{elem, IsChain, nodup}

-- The ids stand apart from the links.
pub IsChain-userid :
    (s : Shm) (u : List (List ℕ)) (p : Slot) (ks : List ℕ)
    → IsChain s p ks
    → IsChain (record s { userid = u }) p ks
unfolding load
IsChain-userid s u (in_head h) [] c = c
IsChain-userid s u (in_next n) [] c = c
IsChain-userid s u (in_head h) (k ∷ ks) (c, cs) = (c, IsChain-userid s u (in_next k) ks cs)
IsChain-userid s u (in_next n) (k ∷ ks) (c, cs) = (c, IsChain-userid s u (in_next k) ks cs)

pub store-sizes :
    (s : Shm) (p : Slot) (v : Link)
    → ((store s p v).userid ≡ s.userid)
      × (length (store s p v).hash_head ≡ length s.hash_head)
      × (length (store s p v).next_in_hash ≡ length s.next_in_hash)
unfolding store
store-sizes s (in_head h) v = (refl, length-set s.hash_head h v, refl)
store-sizes s (in_next n) v = (refl, refl, length-set s.next_in_hash n v)

pub id_at-set_eq : (u : List (List ℕ)) (n : ℕ) (x : List ℕ) → n < length u → id_at (set u n x) n ≡ x
id_at-set_eq [] n x h = absurd (omega arith)
id_at-set_eq (y ∷ ys) zero x h = refl
id_at-set_eq (y ∷ ys) (suc n) x h = id_at-set_eq ys n x (omega arith)

pub id_at-set_ne :
    (u : List (List ℕ)) (n k : ℕ) (x : List ℕ) → (k == n) ≡ false → id_at (set u n x) k ≡ id_at u k
id_at-set_ne [] n k x h = refl
id_at-set_ne (y ∷ ys) zero zero x h = absurd (ground arith)
id_at-set_ne (y ∷ ys) zero (suc k) x h = refl
id_at-set_ne (y ∷ ys) (suc n) zero x h = refl
id_at-set_ne (y ∷ ys) (suc n) (suc k) x h = id_at-set_ne ys n k x (ground arith)

pub elem-append_one :
    (j n : ℕ) (ks : List ℕ) → elem j (ks ++ n ∷ []) ≡ (if j == n then true else elem j ks)
elem-append_one j n [] = refl
elem-append_one j n (k ∷ ks) = ground (arith, elem-append_one j n ks)

pub nodup-append_one :
    (n : ℕ) (ks : List ℕ) → nodup ks ≡ true → elem n ks ≡ false → nodup (ks ++ n ∷ []) ≡ true
nodup-append_one n [] d e = refl
nodup-append_one n (k ∷ ks) d e = ground (arith, nodup-append_one n ks, elem-append_one k n ks)
