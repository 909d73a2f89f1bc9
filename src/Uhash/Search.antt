-- ===== src/Uhash/Search.antt =====
-- `dosearchuser` and `setuserid` on the users that are in the hash.
use brs_bbs.Prelude.{
  ℕ, zero, suc, ◌+◌, ◌-◌, ◌%◌, ◌^◌, ◌≤◌, ◌<◌, ◌≡◌, refl, sym, ap, ◌∙◌, inl, inr, Bool, true, false,
  ◌&&◌, some, List, [], ◌∷◌, arith, ltb, leb, ◌==◌, Bool-cases, length,
}
use brs_bbs.Uhash.{
  Shm, Slot, in_head, in_next, load, id_at, fnv1a_32_strcase, string_hash, idlen, bucket,
  search_loop, dosearchuser, setuserid,
}
use brs_bbs.Prelude.Case.{to_upper, is_same_name}
use brs_bbs.Uhash.Slots.{elem, IsChain}
use brs_bbs.Uhash.Chains.{Chains, length-le_bound, bucket-lt}
use brs_bbs.Uhash.Add.{Added, add_to_uhash-Added}
use brs_bbs.Uhash.Remove.{Removed, remove_from_uhash-Removed}

fnv1a_32_strcase-same :
    (a b : List ℕ) (h : ℕ) → is_same_name a b ≡ true → fnv1a_32_strcase a h ≡ fnv1a_32_strcase b h
unfolding fnv1a_32_strcase is_same_name
fnv1a_32_strcase-same [] [] h e = refl
fnv1a_32_strcase-same [] (d ∷ ds) h e = absurd (ground arith)
fnv1a_32_strcase-same (c ∷ cs) [] h e = absurd (ground arith)
fnv1a_32_strcase-same (c ∷ cs) (d ∷ ds) h e =
    let up : to_upper c ≡ to_upper d = ground arith in
    let rest : is_same_name cs ds ≡ true = ground arith in
    rw up (fnv1a_32_strcase-same cs ds _ rest)

-- Ids that differ in case only have one hash.
pub bucket-same :
    (bits : ℕ) (a b : List ℕ) → is_same_name a b ≡ true → bucket bits a ≡ bucket bits b
unfolding string_hash
bucket-same bits a b e = ap (λ h. h % 2 ^ bits) (fnv1a_32_strcase-same a b 33554467 e)

-- What a search of the links from `p` through `ks` returns.
abbrev Finds : Shm → List ℕ → List ℕ → ℕ → Type 0
Finds s id ks zero = (k : ℕ) → elem k ks ≡ true → is_same_name (id_at s.userid k) id ≡ false
Finds s id ks (suc k) = (elem k ks ≡ true) × (is_same_name (id_at s.userid k) id ≡ true)

Finds-other :
    (s : Shm) (id : List ℕ) (k : ℕ) (ks : List ℕ) (r : ℕ)
    → is_same_name (id_at s.userid k) id ≡ false
    → Finds s id ks r
    → Finds s id (k ∷ ks) r
Finds-other s id k ks zero e f = λ j ej. elim (Bool-cases (j == k)) [
  | inl same ↦ let j' : j ≡ k = ground arith in rw j' e
  | inr ne ↦ f j (ground arith)
]
Finds-other s id k ks (suc r) e (m, q) = (ground arith, q)

search_loop-Finds :
    (max_users times : ℕ) (s : Shm) (id : List ℕ) (p : Slot) (ks : List ℕ)
    → IsChain s p ks
    → ((k : ℕ) → elem k ks ≡ true → k < max_users)
    → length ks ≤ times
    → Finds s id ks (search_loop max_users times s id (load s p)).0
unfolding search_loop
search_loop-Finds m zero s id p [] c b l = λ k e. absurd (ground arith)
search_loop-Finds m zero s id p (k ∷ ks) c b l = absurd (omega arith)
search_loop-Finds m (suc t) s id p [] c b l = rw c (λ k e. absurd (ground arith))
search_loop-Finds m (suc t) s id p (k ∷ ks) (c, cs) b l =
    let rest =
      search_loop-Finds m t s id (in_next k) ks cs (λ j e. b j (ground arith)) (omega arith) in
    let inside : leb m k ≡ false = ground (arith, b k) in
    rw (c, inside)
      (elim (Bool-cases (is_same_name (id_at s.userid k) id)) [
        | inl e ↦ let one : k + 1 ≡ suc k = omega arith in rw (e, one) (ground arith, e)
        | inr e ↦ rw e (Finds-other s id k ks (search_loop m t s id (load s (in_next k))).0 e rest)
      ])

module _ {max_users hash_bits : ℕ} {s : Shm} (v : Chains max_users hash_bits s) where
  -- The user is in the chain of its id.
  abbrev pub is_hashed : ℕ → Bool
  is_hashed k = elem k (v.chain (bucket hash_bits (id_at s.userid k)))

  -- What a search should answer: no user in the hash has the id, or this one has.
  abbrev pub Answers : List ℕ → ℕ → Type 0
  Answers id zero = (k : ℕ) → is_hashed k ≡ true → is_same_name (id_at s.userid k) id ≡ false
  Answers id (suc k) = (is_hashed k ≡ true) × (is_same_name (id_at s.userid k) id ≡ true)

  Finds-Answers :
      (id : List ℕ) (r : ℕ) → Finds s id (v.chain (bucket hash_bits id)) r → Answers id r
  Finds-Answers id zero f = λ k hk. elim (Bool-cases (is_same_name (id_at s.userid k) id)) [
    | inr n ↦ n
    | inl e ↦ f k (rw (bucket-same hash_bits (id_at s.userid k) id e) at hk)
  ]
  Finds-Answers id (suc k) (m, e) = (rw (bucket-same hash_bits (id_at s.userid k) id e) m, e)

  -- `dosearchuser` returns the number of a user in the hash that has the id, whatever its case, and
  -- 0 exactly if there is none.
  pub dosearchuser-Answers : (id : List ℕ) → Answers id (dosearchuser max_users hash_bits s id).0
  unfolding dosearchuser
  dosearchuser-Answers id =
      let b = bucket hash_bits id in
      let bl = bucket-lt hash_bits id in
      let bounds : (k : ℕ) → elem k (v.chain b) ≡ true → k < max_users =
        λ k ek. (v.hashed b k bl ek).0 in
      Finds-Answers id _ (
        search_loop-Finds max_users max_users s id (in_head b) (v.chain b) (v.links b bl) bounds
          (length-le_bound max_users (v.chain b) (v.once b bl) bounds))

-- What `setuserid` leaves: the user in the hash under the id, the others as they were.
pub record Renamed {max_users hash_bits : ℕ} {s : Shm} (v : Chains max_users hash_bits s) (n : ℕ)
    (id : List ℕ) (s' : Shm) : Type 0 where
  pub chains : Chains max_users hash_bits s'
  pub here : id_at s'.userid n ≡ id
  pub in_hash : is_hashed chains n ≡ true
  pub others : (k : ℕ) → (k == n) ≡ false → id_at s'.userid k ≡ id_at s.userid k
  pub members : (k : ℕ) → (k == n) ≡ false → is_hashed chains k ≡ is_hashed v k

is_same_name_refl : (id : List ℕ) → is_same_name id id ≡ true
unfolding is_same_name
is_same_name_refl [] = refl
is_same_name_refl (c ∷ cs) = ground (arith, is_same_name_refl cs)

Added-Renamed :
    {max_users hash_bits : ℕ} {s : Shm} (v : Chains max_users hash_bits s) (n : ℕ) (id : List ℕ)
    (s1 : Shm) (rem : Removed v n s1) (s2 : Shm) (add : Added rem.chains n id s2)
    → Renamed v n id s2
Added-Renamed {hash_bits = bits} {s = s} v n id s1 rem s2 add = record {
  chains = add.chains;
  here = add.here;
  in_hash =
      ap (λ i. elem n (add.chains.chain (bucket bits i))) add.here
      ∙ add.members (bucket bits id) n
      ∙ ground arith;
  others = others;
  members = λ k ne.
      let b = bucket bits (id_at s.userid k) in
      ap (λ i. elem k (add.chains.chain (bucket bits i))) (others k ne)
      ∙ add.members b k
      ∙ ground (arith, rem.members b k (bucket-lt bits (id_at s.userid k)));
}
  where
    others : (k : ℕ) → (k == n) ≡ false → id_at s2.userid k ≡ id_at s.userid k
    others k ne = add.others k ne ∙ ap (λ u. id_at u k) rem.same_ids

-- `setuserid` of a user number of the table and an id of at most 12 characters ends both loops,
-- whether the user was in the hash or not, and leaves a hash in which the user has the id and all
-- others are as they were.
pub setuserid-Renamed :
    {max_users hash_bits : ℕ} {s : Shm} (v : Chains max_users hash_bits s) (num : ℕ) (id : List ℕ)
    → 1 ≤ num
    → num ≤ max_users
    → length id ≤ idlen
    → (s' : Shm) × (setuserid max_users hash_bits s num id ≡ some s') × Renamed v (num - 1) id s'
unfolding setuserid
setuserid-Renamed {max_users = m} {hash_bits = bits} {s = s} v num id low high short =
    let n = num - 1 in
    let (s1, e1, rem) = remove_from_uhash-Removed v n (omega arith) in
    let gone : (h : ℕ) → h < 2 ^ bits → elem n (rem.chains.chain h) ≡ false =
      λ h hh. ground (arith, rem.members h n hh) in
    let (s2, e2, add) = add_to_uhash-Added rem.chains n id (omega arith) short gone in
    let guard : (ltb 0 num && leb num m) ≡ true = ground arith in
    (s2, rw (guard, e1) e2, Added-Renamed v n id s1 rem s2 add)

-- On a hash in which no other user has the id, the search after `setuserid` returns the user.
pub dosearchuser-setuserid :
    {max_users hash_bits : ℕ} {s : Shm} (v : Chains max_users hash_bits s) (num : ℕ) (id : List ℕ)
    → 1 ≤ num
    → num ≤ max_users
    → length id ≤ idlen
    → ((k : ℕ)
        → (k == num - 1) ≡ false
        → is_hashed v k ≡ true
        → is_same_name (id_at s.userid k) id ≡ false)
    → (s' : Shm) × (setuserid max_users hash_bits s num id ≡ some s')
      × ((dosearchuser max_users hash_bits s' id).0 ≡ num)
dosearchuser-setuserid {max_users = m} {hash_bits = bits} {s = s} v num id low high short single =
    let (s', e, r) = setuserid-Renamed v num id low high short in
    (s', e, answer s' r (dosearchuser m bits s' id).0 (dosearchuser-Answers r.chains id))
  where
    answer :
        (s' : Shm) (r : Renamed v (num - 1) id s') (found : ℕ)
        → Answers r.chains id found
        → found ≡ num
    answer s' r zero a =
        let same : is_same_name (id_at s'.userid (num - 1)) id ≡ true =
          ap (λ i. is_same_name i id) r.here ∙ is_same_name_refl id in
        absurd (ground (arith, sym same ∙ a (num - 1) r.in_hash))
    answer s' r (suc k) (h, e) = elim (Bool-cases (k == num - 1)) [
      | inl k' ↦ ground arith
      | inr ne ↦
          let old = single k ne (sym (r.members k ne) ∙ h) in
          let same = ap (λ i. is_same_name i id) (r.others k ne) in
          absurd (ground (arith, sym e ∙ same ∙ old))
    ]
