-- ===== src/Uhash/Chains.antt =====
-- The hash as a whole: each head starts the chain of the users with that hash.
use brs_bbs.Prelude.{
  ℕ, zero, suc, ◌%◌, ◌^◌, ◌≤◌, ◌<◌, ◌≡◌, refl, sym, ◌∙◌, inl, inr, true, false, List, [], ◌∷◌,
  arith, ◌==◌, if◌then◌else◌, Bool-cases, length,
}
use brs_bbs.Uhash.{Shm, in_head, id_at, bucket, string_hash}
use brs_bbs.Uhash.Slots.{elem, IsChain, nodup}

pub record Chains (max_users hash_bits : ℕ) (s : Shm) : Type 0 where
  pub chain : ℕ → List ℕ
  pub links : (h : ℕ) → h < 2 ^ hash_bits → IsChain s (in_head h) (chain h)
  pub hashed :
      (h k : ℕ)
      → h < 2 ^ hash_bits
      → elem k (chain h) ≡ true
      → (k < max_users) × (bucket hash_bits (id_at s.userid k) ≡ h)
  pub once : (h : ℕ) → h < 2 ^ hash_bits → nodup (chain h) ≡ true
  pub heads : length s.hash_head ≡ 2 ^ hash_bits
  pub nexts : length s.next_in_hash ≡ max_users
  pub ids : length s.userid ≡ max_users

unfoldable pub erase : ℕ → List ℕ → List ℕ
erase n [] = []
erase n (k ∷ ks) = if n == k then ks else k ∷ erase n ks

pub elem-erase :
    (n j : ℕ) (ks : List ℕ)
    → nodup ks ≡ true
    → elem j (erase n ks) ≡ (if j == n then false else elem j ks)
unfolding erase
elem-erase n j [] d = ground arith
elem-erase n j (k ∷ ks) d = ground (arith, elem-erase n j ks)

pub nodup-erase : (n : ℕ) (ks : List ℕ) → nodup ks ≡ true → nodup (erase n ks) ≡ true
unfolding erase
nodup-erase n [] d = refl
nodup-erase n (k ∷ ks) d = ground (arith, nodup-erase n ks, elem-erase n k ks)

length-erase : (n : ℕ) (ks : List ℕ) → elem n ks ≡ true → suc (length (erase n ks)) ≡ length ks
unfolding erase
length-erase n [] e = absurd (ground arith)
length-erase n (k ∷ ks) e = ground (arith, length-erase n ks)

-- A list without repetition of numbers below `m` has no more than `m`.
pub length-le_bound :
    (m : ℕ) (ks : List ℕ) → nodup ks ≡ true → ((k : ℕ) → elem k ks ≡ true → k < m) → length ks ≤ m
length-le_bound m [] d h = omega arith
length-le_bound zero (k ∷ ks) d h = absurd (omega (arith, h k (ground arith)))
length-le_bound (suc m) (k ∷ ks) d h =
    let xs = k ∷ ks in
    elim (Bool-cases (elem m xs)) [
      | inl e ↦ omega (
        arith,
        length-erase m xs e,
        length-le_bound m (erase m xs) (nodup-erase m xs d)
            (λ j ej. ground (arith, elem-erase m j xs d, h j)),
      )
      | inr e ↦ let r = length-le_bound m xs d (λ j ej. ground (arith, h j)) in omega (arith, r)
    ]

pub length-lt_bound :
    (m n : ℕ) (ks : List ℕ)
    → nodup ks ≡ true
    → ((k : ℕ) → elem k ks ≡ true → k < m)
    → elem n ks ≡ false
    → n < m
    → length ks < m
length-lt_bound m n ks d h e l =
    let all_of : (k : ℕ) → elem k (n ∷ ks) ≡ true → k < m = λ k ek. ground (arith, h k) in
    let r = length-le_bound m (n ∷ ks) (rw e d) all_of in omega (arith, r)

two_pow-pos : (n : ℕ) → 1 ≤ 2 ^ n
two_pow-pos zero = omega arith
two_pow-pos (suc n) = omega (arith, two_pow-pos n)

mod-lt : (x m : ℕ) → 1 ≤ m → x % m < m
mod-lt x m h = omega arith

pub bucket-lt : (hash_bits : ℕ) (id : List ℕ) → bucket hash_bits id < 2 ^ hash_bits
bucket-lt hash_bits id = mod-lt (string_hash id) (2 ^ hash_bits) (two_pow-pos hash_bits)

-- No user is in two chains.
pub chain_apart :
    {max_users hash_bits : ℕ} {s : Shm} (v : Chains max_users hash_bits s) (h b k : ℕ)
    → h < 2 ^ hash_bits
    → b < 2 ^ hash_bits
    → (h == b) ≡ false
    → elem k (v.chain b) ≡ true
    → elem k (v.chain h) ≡ false
chain_apart v h b k hh bl ne ek = elim (Bool-cases (elem k (v.chain h))) [
  | inr e ↦ e
  | inl e ↦
      let x = (v.hashed h k hh e).1 in
      let y = (v.hashed b k bl ek).1 in absurd (ground (arith, sym x ∙ y))
]
