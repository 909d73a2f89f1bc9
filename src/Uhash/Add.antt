-- ===== src/Uhash/Add.antt =====
-- `add_to_uhash` puts the user at the end of one chain.
use brs_bbs.Prelude.{
  ℕ, zero, suc, ◌^◌, ◌≤◌, ◌<◌, ◌≡◌, refl, ap, ◌∙◌, inl, inr, true, false, ◌&&◌, none, some, List,
  [], ◌∷◌, ◌++◌, arith, ◌==◌, if◌then◌else◌, Bool-cases, take-whole, length, set, length-set, take,
}
use brs_bbs.Uhash.{Shm, Slot, in_head, in_next, store, id_at, idlen, bucket, find_end, add_to_uhash}
use brs_bbs.Uhash.Parts.{
  IsChain-userid, store-sizes, id_at-set_eq, id_at-set_ne, elem-append_one, nodup-append_one,
}
use brs_bbs.Uhash.Chains.{Chains, length-lt_bound, bucket-lt, chain_apart}
use brs_bbs.Uhash.Slots.{
  elem, IsChain, avoids, SlotOf, nodup, InRange, load-store_eq, load-store_ne, linear, linear-head,
  avoids-SlotOf, SlotOf-avoids, next-avoids_head, store-IsChain, store-InRange,
}

pub end_slot : Slot → List ℕ → Slot
end_slot p [] = p
end_slot p (k ∷ ks) = end_slot (in_next k) ks

pub SlotOf-end_slot : (p : Slot) (ks : List ℕ) → SlotOf (end_slot p ks) p ks
unfolding end_slot
SlotOf-end_slot p [] = refl
SlotOf-end_slot p (k ∷ ks) = inr (SlotOf-end_slot (in_next k) ks)

pub find_end-chain :
    (times : ℕ) (s : Shm) (p : Slot) (ks : List ℕ)
    → IsChain s p ks
    → length ks < times
    → find_end times s p ≡ some (end_slot p ks)
unfolding find_end end_slot
find_end-chain zero s p ks c h = absurd (omega arith)
find_end-chain (suc t) s p [] c h = rw (find_end, c) refl
find_end-chain (suc t) s p (k ∷ ks) (c, cs) h =
    rw (find_end, c) (find_end-chain t s (in_next k) ks cs (omega arith))

-- The two writes behind the loop.
pub append-IsChain :
    (s : Shm) (n : ℕ) (p : Slot) (ks : List ℕ)
    → IsChain s p ks
    → linear p ks ≡ true
    → avoids (in_next n) p ks ≡ true
    → InRange s (end_slot p ks)
    → n < length s.next_in_hash
    → IsChain (store (store s (end_slot p ks) (some n)) (in_next n) none) p (ks ++ n ∷ [])
unfolding end_slot
append-IsChain s n p [] c l a r rn =
    let s1 = store s p (some n) in
    (
      load-store_ne s1 (in_next n) p none (ground arith) ∙ load-store_eq s p (some n) r,
      load-store_eq s1 (in_next n) none (store-InRange s p (in_next n) (some n) rn),
    )
append-IsChain s n p (k ∷ ks) (c, cs) l a r rn =
    let e = end_slot (in_next k) ks in
    let s1 = store s e (some n) in
    let av : avoids p (in_next k) ks ≡ true = ground arith in
    (
      load-store_ne s1 (in_next n) p none (ground arith)
          ∙ load-store_ne s e p (some n)
              (avoids-SlotOf p e (in_next k) ks av (SlotOf-end_slot (in_next k) ks))
          ∙ c,
      append-IsChain s n (in_next k) ks cs (ground arith) (ground arith) r rn,
    )

module _ {max_users hash_bits : ℕ} {s : Shm} (v : Chains max_users hash_bits s) where
  SlotOf-InRange :
      (h : ℕ) (ks : List ℕ)
      → h < 2 ^ hash_bits
      → ((k : ℕ) → elem k ks ≡ true → k < max_users)
      → InRange s (end_slot (in_head h) ks)
  unfolding end_slot
  SlotOf-InRange h [] hh m = omega (arith, v.heads)
  SlotOf-InRange h (k ∷ ks) hh m = go k ks m
    where
      go :
          (k : ℕ) (ks : List ℕ)
          → ((j : ℕ) → elem j (k ∷ ks) ≡ true → j < max_users)
          → InRange s (end_slot (in_next k) ks)
      go k [] m = omega (arith, v.nexts, m k (ground arith))
      go k (j ∷ js) m = go j js (λ i e. m i (ground arith))

-- What `add_to_uhash` leaves: the user at the end of the chain of its id.
pub record Added {max_users hash_bits : ℕ} {s : Shm} (v : Chains max_users hash_bits s) (n : ℕ)
    (id : List ℕ) (s' : Shm) : Type 0 where
  pub chains : Chains max_users hash_bits s'
  pub here : id_at s'.userid n ≡ id
  pub others : (k : ℕ) → (k == n) ≡ false → id_at s'.userid k ≡ id_at s.userid k
  pub members :
      (h k : ℕ)
      → elem k (chains.chain h)
        ≡ (if h == bucket hash_bits id && (k == n) then true else elem k (v.chain h))

module _ {max_users hash_bits : ℕ} {s : Shm} (v : Chains max_users hash_bits s) (n : ℕ)
    (id : List ℕ) (small : n < max_users) (short : length id ≤ idlen)
    (absent : (h : ℕ) → h < 2 ^ hash_bits → elem n (v.chain h) ≡ false) where
  stored : Shm
  stored = record s { userid = set s.userid n (take idlen id) }

  the_end : Slot
  the_end = end_slot (in_head (bucket hash_bits id)) (v.chain (bucket hash_bits id))

  added : Shm
  added = store (store stored the_end (some n)) (in_next n) none

  added-sizes :
      (added.userid ≡ set s.userid n (take idlen id))
      × (length added.hash_head ≡ 2 ^ hash_bits)
      × (length added.next_in_hash ≡ max_users)
  unfolding added stored
  added-sizes =
      let (u1, h1, n1) = store-sizes stored the_end (some n) in
      let (u2, h2, n2) = store-sizes (store stored the_end (some n)) (in_next n) none in
      (u2 ∙ u1, omega (arith, h1, h2, v.heads), omega (arith, n1, n2, v.nexts))

  chain_after : ℕ → List ℕ
  chain_after h = if h == bucket hash_bits id then v.chain h ++ n ∷ [] else v.chain h

  members_after :
      (h k : ℕ)
      → elem k (chain_after h)
        ≡ (if h == bucket hash_bits id && (k == n) then true else elem k (v.chain h))
  unfolding chain_after
  members_after h k = ground (arith, elem-append_one k n (v.chain h))

  links_after : (h : ℕ) → h < 2 ^ hash_bits → IsChain added (in_head h) (chain_after h)
  unfolding chain_after added stored the_end
  links_after h hh =
      let b = bucket hash_bits id in
      let c =
        IsChain-userid s (set s.userid n (take idlen id)) (in_head h) (v.chain h) (v.links h hh) in
      elim (Bool-cases (h == b)) [
        | inl e ↦
            let e' : h ≡ b = ground arith in
            rw e' (
              let bl = bucket-lt hash_bits id in
              let cb =
                IsChain-userid s (set s.userid n (take idlen id)) (in_head b) (v.chain b)
                  (v.links b bl) in
              let same : (b == b) ≡ true = ground arith in
              rw same (
                append-IsChain stored n (in_head b) (v.chain b) cb
                  (linear-head b (v.chain b) (v.once b bl))
                  (next-avoids_head n b (v.chain b) (absent b bl))
                  (SlotOf-InRange v b (v.chain b) bl (λ k ek. (v.hashed b k bl ek).0))
                  (omega (arith, v.nexts, small))))
        | inr ne ↦
            let bl = bucket-lt hash_bits id in
            let away =
              SlotOf-avoids the_end b h (v.chain b) (v.chain h) (ground arith)
                (λ k ek. chain_apart v h b k hh bl ne ek)
                (SlotOf-end_slot (in_head b) (v.chain b)) in
            rw ne (
              store-IsChain (store stored the_end (some n)) (in_next n) (in_head h) none (v.chain h)
                (next-avoids_head n h (v.chain h) (absent h hh))
                (store-IsChain stored the_end (in_head h) (some n) (v.chain h) away c))
      ]

  hashed_after :
      (h k : ℕ)
      → h < 2 ^ hash_bits
      → elem k (chain_after h) ≡ true
      → (k < max_users) × (bucket hash_bits (id_at added.userid k) ≡ h)
  hashed_after h k hh e =
      let (u, _, _) = added-sizes in
      let here : id_at added.userid n ≡ id =
        ap (λ l. id_at l n) u
        ∙ id_at-set_eq s.userid n (take idlen id) (omega (arith, v.ids, small))
        ∙ take-whole idlen id short in
      elim (Bool-cases (k == n)) [
        | inl eq' ↦
            let k' : k ≡ n = ground arith in
            rw k' (small, ap (bucket hash_bits) here ∙ owner h hh (rw k' at e))
        | inr ne ↦
            let old : elem k (v.chain h) ≡ true = ground (arith, members_after h k) in
            let (l, b) = v.hashed h k hh old in
            (
              l,
              ap (λ l. bucket hash_bits (id_at l k)) u
                  ∙ ap (bucket hash_bits) (id_at-set_ne s.userid n k (take idlen id) ne)
                  ∙ b,
            )
      ]
    where
      owner : (h : ℕ) → h < 2 ^ hash_bits → elem n (chain_after h) ≡ true → bucket hash_bits id ≡ h
      owner h hh e = ground (arith, members_after h n, absent h hh)

  once_after : (h : ℕ) → h < 2 ^ hash_bits → nodup (chain_after h) ≡ true
  unfolding chain_after
  once_after h hh = elim (Bool-cases (h == bucket hash_bits id)) [
    | inl e ↦ rw e (nodup-append_one n (v.chain h) (v.once h hh) (absent h hh))
    | inr ne ↦ rw ne (v.once h hh)
  ]

  after : Chains max_users hash_bits added
  unfolding added stored
  after =
      let (u, hs, ns) = added-sizes in
      record {
        chain = chain_after;
        links = links_after;
        hashed = hashed_after;
        once = once_after;
        heads = hs;
        nexts = ns;
        ids = ap length u ∙ length-set s.userid n (take idlen id) ∙ v.ids;
      }

  -- Of a user that is in no chain, with an id that fits, `add_to_uhash` finds the end of the chain.
  pub add_to_uhash-Added :
      (s' : Shm) × (add_to_uhash max_users hash_bits s n id ≡ some s') × Added v n id s'
  unfolding add_to_uhash added stored the_end after
  add_to_uhash-Added =
      let (u, _, _) = added-sizes in
      let b = bucket hash_bits id in
      let bl = bucket-lt hash_bits id in
      let found =
        find_end-chain max_users stored (in_head b) (v.chain b)
          (IsChain-userid s (set s.userid n (take idlen id)) (in_head b) (v.chain b) (v.links b bl))
          (length-lt_bound max_users n (v.chain b) (v.once b bl) (λ k ek. (v.hashed b k bl ek).0)
            (absent b bl) small) in
      (
        added,
        rw found refl,
        record {
          chains = after;
          here =
              ap (λ l. id_at l n) u
              ∙ id_at-set_eq s.userid n (take idlen id) (omega (arith, v.ids, small))
              ∙ take-whole idlen id short;
          others = λ k ne. ap (λ l. id_at l k) u ∙ id_at-set_ne s.userid n k (take idlen id) ne;
          members = members_after;
        },
      )
