-- ===== src/Uhash/Remove.antt =====
-- `remove_from_uhash` takes the user out of the one chain that it can be in.
use brs_bbs.Prelude.{
  ℕ, zero, suc, ◌^◌, ◌≤◌, ◌<◌, ◌≡◌, refl, sym, ap, ◌∙◌, ◌⊎◌, inl, inr, true, false, some, List, [],
  ◌∷◌, arith, ◌==◌, if◌then◌else◌, Bool-cases, length,
}
use brs_bbs.Uhash.{
  Shm, Slot, in_head, in_next, load, store, id_at, bucket, find_link, points_at, unlink,
  remove_from_uhash,
}
use brs_bbs.Uhash.Slots.{
  elem, same_slot, IsChain, avoids, SlotOf, InRange, load-store_eq, load-store_ne, linear,
  linear-head, avoids-SlotOf, SlotOf-avoids, store-IsChain,
}
use brs_bbs.Uhash.Chains.{
  Chains, erase, elem-erase, nodup-erase, length-le_bound, length-lt_bound, bucket-lt, chain_apart,
}
use brs_bbs.Uhash.Parts.{store-sizes}

erase-absent : (n : ℕ) (ks : List ℕ) → elem n ks ≡ false → erase n ks ≡ ks
unfolding erase
erase-absent n [] e = refl
erase-absent n (k ∷ ks) e = ground (arith, erase-absent n ks)

-- A link past the user that stands first.
past_first :
    (s : Shm) (n : ℕ) (p : Slot) (ks : List ℕ)
    → IsChain s (in_next n) ks
    → avoids p (in_next n) ks ≡ true
    → InRange s p
    → IsChain (store s p (load s (in_next n))) p ks
past_first s n p [] c a r = load-store_eq s p (load s (in_next n)) r ∙ c
past_first s n p (k ∷ ks) (c, cs) a r = (
  load-store_eq s p (load s (in_next n)) r ∙ c,
  store-IsChain s p (in_next k) (load s (in_next n)) ks (ground arith) cs,
)

unlink-load_ne :
    (s : Shm) (n : ℕ) (q p : Slot) → same_slot q p ≡ false → load (unlink s n q) p ≡ load s p
unfolding unlink
unlink-load_ne s n q p h = elim (Bool-cases (points_at (load s q) n)) [
  | inl e ↦ rw e (load-store_ne s q p (load s (in_next n)) h)
  | inr e ↦ rw e refl
]

unlink-IsChain :
    (s : Shm) (n : ℕ) (q p : Slot) (ks : List ℕ)
    → avoids q p ks ≡ true
    → IsChain s p ks
    → IsChain (unlink s n q) p ks
unfolding unlink
unlink-IsChain s n q p ks a c = elim (Bool-cases (points_at (load s q) n)) [
  | inl e ↦ rw e (store-IsChain s q p (load s (in_next n)) ks a c)
  | inr e ↦ rw e c
]

unlink-sizes :
    (s : Shm) (n : ℕ) (q : Slot)
    → ((unlink s n q).userid ≡ s.userid)
      × (length (unlink s n q).hash_head ≡ length s.hash_head)
      × (length (unlink s n q).next_in_hash ≡ length s.next_in_hash)
unfolding unlink
unlink-sizes s n q = elim (Bool-cases (points_at (load s q) n)) [
  | inl e ↦ rw e (store-sizes s q (load s (in_next n)))
  | inr e ↦ rw e (refl, refl, refl)
]

-- The loop finds the link, and past it the chain goes on without the user.
erase-IsChain :
    (times : ℕ) (s : Shm) (n : ℕ) (p : Slot) (ks : List ℕ)
    → IsChain s p ks
    → linear p ks ≡ true
    → InRange s p
    → ((k : ℕ) → elem k ks ≡ true → k < length s.next_in_hash)
    → ((elem n ks ≡ true) × (length ks ≤ times)) ⊎ (length ks < times)
    → (q : Slot) × (find_link times s n p ≡ some q)
      × SlotOf q p ks
      × IsChain (unlink s n q) p (erase n ks)
unfolding find_link unlink erase
erase-IsChain zero s n p [] c l r m h = absurd (ground arith)
erase-IsChain zero s n p (k ∷ ks) c l r m h = absurd (ground arith)
erase-IsChain (suc t) s n p [] c l r m h = (p, rw (find_link, c) refl, refl, rw c c)
erase-IsChain (suc t) s n p (k ∷ ks) (c, cs) l r m h = elim (Bool-cases (k == n)) [
  | inl e ↦
      let e' : k ≡ n = ground arith in
      let en : (n == k) ≡ true = ground arith in
      let av : avoids p (in_next k) ks ≡ true = ground arith in
      (
        p,
        rw (find_link, c, e) refl,
        inl refl,
        rw (c, e, en) (past_first s n p ks (rw e' at cs) (rw e' at av) r),
      )
  | inr ne ↦
      let en : (n == k) ≡ false = ground arith in
      let (q, f, so, ch) =
        erase-IsChain t s n (in_next k) ks cs (ground arith) (m k (ground arith))
          (λ j ej. m j (ground arith)) (ground arith) in
      let keep = unlink-load_ne s n q p (avoids-SlotOf p q (in_next k) ks (ground arith) so) in
      (q, rw (find_link, c, ne) f, inr so, rw en (keep ∙ c, ch))
]

-- What `remove_from_uhash` leaves: the user is in no chain.
pub record Removed {max_users hash_bits : ℕ} {s : Shm} (v : Chains max_users hash_bits s) (n : ℕ)
    (s' : Shm) : Type 0 where
  pub chains : Chains max_users hash_bits s'
  pub same_ids : s'.userid ≡ s.userid
  pub members :
      (h k : ℕ)
      → h < 2 ^ hash_bits
      → elem k (chains.chain h) ≡ (if k == n then false else elem k (v.chain h))

module _ {max_users hash_bits : ℕ} {s : Shm} (v : Chains max_users hash_bits s) (n : ℕ)
    (small : n < max_users) where
  only_bucket :
      (h : ℕ)
      → h < 2 ^ hash_bits
      → (h == bucket hash_bits (id_at s.userid n)) ≡ false
      → elem n (v.chain h) ≡ false
  only_bucket h hh ne = elim (Bool-cases (elem n (v.chain h))) [
    | inr e ↦ e
    | inl e ↦ let b = (v.hashed h n hh e).1 in absurd (ground (arith, sym b))
  ]

  walked :
      let b = bucket hash_bits (id_at s.userid n) in
      (q : Slot) × (find_link max_users s n (in_head b) ≡ some q)
      × SlotOf q (in_head b) (v.chain b)
      × IsChain (unlink s n q) (in_head b) (erase n (v.chain b))
  walked =
      let b = bucket hash_bits (id_at s.userid n) in
      let bl = bucket-lt hash_bits (id_at s.userid n) in
      let bounds : (k : ℕ) → elem k (v.chain b) ≡ true → k < max_users =
        λ k ek. (v.hashed b k bl ek).0 in
      erase-IsChain max_users s n (in_head b) (v.chain b) (v.links b bl)
        (linear-head b (v.chain b) (v.once b bl)) (omega (arith, bl, v.heads))
        (λ k ek. omega (arith, bounds k ek, v.nexts))
        (elim (Bool-cases (elem n (v.chain b))) [
          | inl e ↦ inl (e, length-le_bound max_users (v.chain b) (v.once b bl) bounds)
          | inr e ↦ inr (length-lt_bound max_users n (v.chain b) (v.once b bl) bounds e small)
        ])

  -- `remove_from_uhash` of any user of the table ends its loop, and takes the user out.
  pub remove_from_uhash-Removed :
      (s' : Shm) × (remove_from_uhash max_users hash_bits s n ≡ some s') × Removed v n s'
  unfolding remove_from_uhash
  remove_from_uhash-Removed =
      let b = bucket hash_bits (id_at s.userid n) in
      let bl = bucket-lt hash_bits (id_at s.userid n) in
      let (q, found, so, ch) = walked in
      let (u, hs, ns) = unlink-sizes s n q in
      (
        unlink s n q,
        rw found refl,
        record {
          chains = record {
            chain = λ h. erase n (v.chain h);
            links = λ h hh. elim (Bool-cases (h == b)) [
              | inl e ↦ let e' : h ≡ b = ground arith in rw e' ch
              | inr ne ↦ rw (erase-absent n (v.chain h) (only_bucket h hh ne)) (
                  unlink-IsChain s n q (in_head h) (v.chain h)
                    (SlotOf-avoids q b h (v.chain b) (v.chain h) (ground arith)
                      (λ k ek. apart h k hh ne ek) so)
                    (v.links h hh))
            ];
            hashed = λ h k hh e.
                let (l, o) = v.hashed h k hh (still h k hh e) in
                (l, ap (λ l. bucket hash_bits (id_at l k)) u ∙ o);
            once = λ h hh. nodup-erase n (v.chain h) (v.once h hh);
            heads = omega (arith, hs, v.heads);
            nexts = omega (arith, ns, v.nexts);
            ids = ap length u ∙ v.ids;
          };
          same_ids = u;
          members = λ h k hh. elem-erase n k (v.chain h) (v.once h hh);
        },
      )
    where
      apart :
          (h k : ℕ)
          → h < 2 ^ hash_bits
          → (h == bucket hash_bits (id_at s.userid n)) ≡ false
          → elem k (v.chain (bucket hash_bits (id_at s.userid n))) ≡ true
          → elem k (v.chain h) ≡ false
      apart h k hh ne ek =
          chain_apart v h (bucket hash_bits (id_at s.userid n)) k hh
            (bucket-lt hash_bits (id_at s.userid n)) ne ek

      still :
          (h k : ℕ)
          → h < 2 ^ hash_bits
          → elem k (erase n (v.chain h)) ≡ true
          → elem k (v.chain h) ≡ true
      still h k hh e = ground (arith, elem-erase n k (v.chain h) (v.once h hh))
