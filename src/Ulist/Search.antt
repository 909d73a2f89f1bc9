-- ===== src/Ulist/Search.antt =====
-- The search by process id halves the places to the first that has it.
use brs_bbs.Prelude.{
  ℕ, zero, suc, ◌+◌, ◌-◌, ◌/◌, ◌≤◌, ◌<◌, ◌≡◌, refl, subst, ◌≢◌, ◌⊎◌, inl, inr, true, false, Option,
  none, some, arith, ltb, ◌==◌, Bool-cases,
}
use brs_bbs.Ulist.{Utmp, search_pid_loop, search_ulist_pid, IsSorted, Answers}

-- What a search between two places returns.
abbrev pub Finds : Utmp → ℕ → ℕ → ℕ → Option (Option ℕ) → Type 0
Finds shm pid start end_ none = ⊥
Finds shm pid start end_ (some none) =
    (i : ℕ) → start ≤ i → i ≤ end_ → shm.pid_of (shm.ulist i) ≢ pid
Finds shm pid start end_ (some (some u)) =
    (i : ℕ) × (start ≤ i) × (i ≤ end_) × (u ≡ shm.ulist i) × (shm.pid_of u ≡ pid)

-- A result for a part of the places holds for all if the process id is at none of the others.
Finds-wider :
    (shm : Utmp) (pid start end_ start' end' : ℕ) (r : Option (Option ℕ))
    → start ≤ start'
    → end' ≤ end_
    → ((i : ℕ) → start ≤ i → i ≤ end_ → (i < start') ⊎ (end' < i) → shm.pid_of (shm.ulist i) ≢ pid)
    → Finds shm pid start' end' r
    → Finds shm pid start end_ r
Finds-wider shm pid start end_ start' end' none a b out f = f
Finds-wider shm pid start end_ start' end' (some (some u)) a b out (i, l, h, e, p) =
    (i, omega (arith, a, l), omega (arith, b, h), e, p)
Finds-wider shm pid start end_ start' end' (some none) a b out f = λ i l h.
    elim (below_or i start') [
      | inl below ↦ out i l h (inl below)
      | inr from ↦ elim (below_or end' i) [
        | inl above ↦ out i l h (inr above)
        | inr to ↦ f i from to
      ]
    ]
  where
    below_or : (m n : ℕ) → (m < n) ⊎ (n ≤ m)
    below_or m n = elim (Bool-cases (ltb m n)) [
      | inl t ↦ inl (ground (arith, t))
      | inr t ↦ inr (ground (arith, t))
    ]

search_pid_loop-Finds :
    (fuel : ℕ) (shm : Utmp) (pid start end_ : ℕ)
    → IsSorted shm
    → start ≤ end_
    → end_ < shm.utmp_number
    → end_ - start < fuel
    → Finds shm pid start end_ (search_pid_loop fuel shm pid start end_)
unfolding search_pid_loop
search_pid_loop-Finds zero shm pid start end_ o se eu enough = absurd (omega (arith, enough))
search_pid_loop-Finds (suc fuel) shm pid start end_ o se eu enough =
    let i = (start + end_) / 2 in
    let u = shm.ulist i in
    elim (Bool-cases (pid == shm.pid_of u)) [
      | inl hit ↦ rw hit (i, omega (arith, se), omega (arith, se), refl, ground (arith, hit))
      | inr miss ↦ elim (Bool-cases (end_ == start)) [
        | inl last ↦ rw (miss, last) (only start end_ (ground (arith, last)) miss)
        | inr more ↦ elim (Bool-cases (i == start)) [
          | inl two ↦
              rw (miss, more, two)
                (Finds-wider shm pid start end_ end_ end_ (search_pid_loop fuel shm pid end_ end_)
                  se (omega arith)
                  (λ k l h o.
                    other start end_ k (ground (arith, two)) (ground (arith, more)) miss l h o)
                  (search_pid_loop-Finds fuel shm pid end_ end_ o (omega arith) eu
                    (ground (arith, se, more, enough))))
          | inr between ↦ elim (Bool-cases (ltb (shm.pid_of u) pid)) [
            | inl less ↦
                rw (miss, more, between, less)
                  (Finds-wider shm pid start end_ i end_ (search_pid_loop fuel shm pid i end_)
                    (omega (arith, se)) (omega arith)
                    (λ k l h out. elim out [
                      | inl below ↦ λ eq. absurd (
                          smaller k i less eq
                            (o k i (omega (arith, below)) (omega (arith, se, eu))))
                      | inr above ↦ absurd (omega (arith, above, h))
                    ])
                    (search_pid_loop-Finds fuel shm pid i end_ o (omega (arith, se)) eu
                      (closer start end_ fuel between more se enough).0))
            | inr greater ↦
                rw (miss, more, between, greater)
                  (Finds-wider shm pid start end_ start i (search_pid_loop fuel shm pid start i)
                    (omega arith) (omega (arith, se))
                    (λ k l h out. elim out [
                      | inl below ↦ absurd (omega (arith, below, l))
                      | inr above ↦ λ eq. absurd (
                          larger i k miss greater eq
                            (o i k (omega (arith, above)) (omega (arith, h, eu))))
                    ])
                    (search_pid_loop-Finds fuel shm pid start i o (omega (arith, se))
                      (omega (arith, se, eu)) (closer start end_ fuel between more se enough).1))
          ]
        ]
      ]
    ]
  where
    only :
        (s e : ℕ)
        → e ≡ s
        → (pid == shm.pid_of (shm.ulist ((s + e) / 2))) ≡ false
        → (k : ℕ) → s ≤ k
        → k ≤ e
        → shm.pid_of (shm.ulist k) ≢ pid
    only s e same miss k l h eq =
        let k' : (s + e) / 2 ≡ k = omega (arith, same, l, h) in
        let miss' : (pid == shm.pid_of (shm.ulist k)) ≡ false =
          subst (λ x. (pid == shm.pid_of (shm.ulist x)) ≡ false) k' miss in
        ground (arith, miss', eq)

    other :
        (s e k : ℕ)
        → (s + e) / 2 ≡ s
        → (e == s) ≡ false
        → (pid == shm.pid_of (shm.ulist ((s + e) / 2))) ≡ false
        → s ≤ k
        → k ≤ e
        → (k < e) ⊎ (e < k)
        → shm.pid_of (shm.ulist k) ≢ pid
    other s e k two more miss l h out eq =
        let k' : (s + e) / 2 ≡ k = ground (arith, two, l, h, out) in
        let miss' : (pid == shm.pid_of (shm.ulist k)) ≡ false =
          subst (λ x. (pid == shm.pid_of (shm.ulist x)) ≡ false) k' miss in
        ground (arith, miss', eq)

    smaller :
        (k i : ℕ)
        → ltb (shm.pid_of (shm.ulist i)) pid ≡ true
        → shm.pid_of (shm.ulist k) ≡ pid
        → shm.pid_of (shm.ulist k) ≤ shm.pid_of (shm.ulist i)
        → ⊥
    smaller k i less eq le = ground (arith, less, eq, le)

    larger :
        (i k : ℕ)
        → (pid == shm.pid_of (shm.ulist i)) ≡ false
        → ltb (shm.pid_of (shm.ulist i)) pid ≡ false
        → shm.pid_of (shm.ulist k) ≡ pid
        → shm.pid_of (shm.ulist i) ≤ shm.pid_of (shm.ulist k)
        → ⊥
    larger i k miss greater eq le = ground (arith, miss, greater, eq, le)

    closer :
        (s e fuel : ℕ)
        → ((s + e) / 2 == s) ≡ false
        → (e == s) ≡ false
        → s ≤ e
        → e - s < suc fuel
        → (e - (s + e) / 2 < fuel) × ((s + e) / 2 - s < fuel)
    closer s e fuel between more se enough = (ground arith, ground arith)

-- On a table in the order of the process ids, with fuel for its length, `search_ulist_pid` ends: it
-- returns the place of a user with the process id, one that the table lists, and NULL exactly where
-- none of the table has it.
pub search_ulist_pid-Answers :
    (fuel : ℕ) (shm : Utmp) (pid : ℕ)
    → IsSorted shm
    → shm.utmp_number ≤ fuel
    → Answers shm pid (search_ulist_pid fuel shm pid)
unfolding search_ulist_pid
search_ulist_pid-Answers fuel shm pid o enough = elim (Bool-cases (shm.utmp_number == 0)) [
  | inl empty ↦ rw empty (λ i l. absurd (ground (arith, empty, l)))
  | inr some_ ↦
      let positive : shm.utmp_number ≢ 0 = ground (arith, some_) in
      rw some_ (
        answers (search_pid_loop fuel shm pid 0 (shm.utmp_number - 1)) positive (
          search_pid_loop-Finds fuel shm pid 0 (shm.utmp_number - 1) o (omega arith)
            (omega (arith, positive)) (omega (arith, positive, enough))))
]
  where
    answers :
        (r : Option (Option ℕ))
        → shm.utmp_number ≢ 0
        → Finds shm pid 0 (shm.utmp_number - 1) r
        → Answers shm pid r
    answers none p f = f
    answers (some none) p f = λ i l. f i (omega arith) (omega (arith, p, l))
    answers (some (some u)) p (i, l, h, e, q) = (i, omega (arith, p, h), e, q)
