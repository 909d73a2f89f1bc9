-- ===== src/Ulist.antt =====
-- The search of a logged-in user by process id in common/bbs/cache.c, `search_ulist_pid`.
--
-- `ulist` is the array `sorted[currsorted][8]`, which holds places of `uinfo`; a pointer into that
-- array is its place, and NULL is `none`. Process ids are not negative.
pub mod Search
mod Tests
use brs_bbs.Prelude.{
  ℕ, zero, suc, ◌+◌, ◌-◌, ◌*◌, ◌/◌, ◌%◌, ◌^◌, ◌≤◌, ◌<◌, min, ◌≡◌, refl, sym, ap, ap₂, ◌∙◌, subst,
  ◌≢◌, ◌↔◌, ◌⊎◌, inl, inr, Bool, true, false, not, ◌&&◌, ◌||◌, Option, none, some, List, [], ◌∷◌,
  ◌++◌, append-nil, append_assoc, map, flatten, arith, ltb, leb, ◌==◌, if◌then◌else◌, ltb→lt,
  lt→ltb, leb→le, ==_iff, tests, Bool-cases, Option-cases, List-cases, ◌>>=◌, take-whole,
  drop-whole, take-append_le, take-append_past, drop-append_past, drop-drop, take-take,
  drop-append_le, drop-take, within, length, get_elem?, set, length-append, length-set, take, drop,
  replicate, length-take, length-drop, take-append-drop, length-replicate,
}

-- `SHM_t`, as far as the search reads it.
pub record Utmp : Type 0 where
  pub utmp_number : ℕ
  pub ulist : ℕ → ℕ
  pub pid_of : ℕ → ℕ

-- The `for` loop, on fuel; `none` is out of fuel.
unfoldable pub search_pid_loop : ℕ → Utmp → ℕ → ℕ → ℕ → Option (Option ℕ)
search_pid_loop zero shm pid start end_ = none
search_pid_loop (suc fuel) shm pid start end_ =
    let i = (start + end_) / 2 in
    let u = shm.ulist i in
    let at_end = search_pid_loop fuel shm pid end_ end_ in
    let upper = search_pid_loop fuel shm pid i end_ in
    let lower = search_pid_loop fuel shm pid start i in
    if pid == shm.pid_of u
    then some (some u)
    else if end_ == start
    then some none
    else if i == start
    then at_end
    else if ltb (shm.pid_of u) pid
    then upper
    else lower

-- `search_ulist_pid`
unfoldable pub search_ulist_pid : ℕ → Utmp → ℕ → Option (Option ℕ)
search_ulist_pid fuel shm pid =
    if shm.utmp_number == 0 then some none else search_pid_loop fuel shm pid 0 (shm.utmp_number - 1)

-- The order that the table is sorted in.
abbrev pub IsSorted : Utmp → Type 0
IsSorted shm =
    (i k : ℕ) → i ≤ k → k < shm.utmp_number → shm.pid_of (shm.ulist i) ≤ shm.pid_of (shm.ulist k)

-- What a search of the table returns.
abbrev pub Answers : Utmp → ℕ → Option (Option ℕ) → Type 0
Answers shm pid none = ⊥
Answers shm pid (some none) = (i : ℕ) → i < shm.utmp_number → shm.pid_of (shm.ulist i) ≢ pid
Answers shm pid (some (some u)) =
    (i : ℕ) × (i < shm.utmp_number) × (u ≡ shm.ulist i) × (shm.pid_of u ≡ pid)
