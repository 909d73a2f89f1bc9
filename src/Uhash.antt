-- ===== src/Uhash.antt =====
-- The hash of user ids in shared memory (common/bbs/cache.c, with the hash of include/fnv_hash.h).
--
-- A link of -1 is `none`. A pointer to a link is the slot that it points at. `MAX_USERS` and
-- `HASH_BITS` are parameters, and `none` as a whole result stands for the exit of the process.
pub mod Slots
pub mod Parts
pub mod Chains
pub mod Add
pub mod Remove
pub mod Search
mod Tests
use brs_bbs.Prelude.Case.{to_upper, is_same_name}
use brs_bbs.Prelude.{
  ℕ, zero, suc, ◌+◌, ◌-◌, ◌*◌, ◌/◌, ◌%◌, ◌^◌, ◌≤◌, ◌<◌, min, ◌≡◌, refl, sym, ap, ap₂, ◌∙◌, subst,
  ◌≢◌, ◌↔◌, ◌⊎◌, inl, inr, Bool, true, false, not, ◌&&◌, ◌||◌, Option, none, some, List, [], ◌∷◌,
  ◌++◌, append-nil, append_assoc, map, flatten, arith, ltb, leb, ◌==◌, if◌then◌else◌, ltb→lt,
  lt→ltb, leb→le, ==_iff, tests, Bool-cases, Option-cases, List-cases, ◌>>=◌, take-whole,
  drop-whole, take-append_le, take-append_past, drop-append_past, drop-drop, take-take,
  drop-append_le, drop-take, within, length, get_elem?, set, length-append, length-set, take, drop,
  replicate, length-take, length-drop, take-append-drop, length-replicate,
}
use Prim.Native.Nat.{bit_xor}

abbrev pub Link : Type 0
Link = Option ℕ

pub record Shm : Type 0 where
  pub hash_head : List Link
  pub next_in_hash : List Link
  pub userid : List (List ℕ)

-- Where a link is kept: `&hash_head[h]` or `&next_in_hash[n]`.
pub data Slot : Type 0 where
  in_head : ℕ → Slot
  in_next : ℕ → Slot

abbrev pub link_at : List Link → ℕ → Link
link_at [] i = none
link_at (x ∷ xs) zero = x
link_at (x ∷ xs) (suc i) = link_at xs i

-- `*p`
unfoldable pub load : Shm → Slot → Link
load s (in_head h) = link_at s.hash_head h
load s (in_next n) = link_at s.next_in_hash n

-- `*p = v`
unfoldable pub store : Shm → Slot → Link → Shm
store s (in_head h) v = record s { hash_head = set s.hash_head h v }
store s (in_next n) v = record s { next_in_hash = set s.next_in_hash n v }

abbrev pub id_at : List (List ℕ) → ℕ → List ℕ
id_at [] i = []
id_at (x ∷ xs) zero = x
id_at (x ∷ xs) (suc i) = id_at xs i

unfoldable pub fnv1a_32_strcase : List ℕ → ℕ → ℕ
fnv1a_32_strcase [] hval = hval
fnv1a_32_strcase (c ∷ cs) hval =
    fnv1a_32_strcase cs ((bit_xor hval (to_upper c) * 16777619) % 2 ^ 32)

unfoldable pub string_hash : List ℕ → ℕ
string_hash s = fnv1a_32_strcase s 33554467

-- IDLEN: what `strlcpy` keeps of an id.
abbrev pub idlen : ℕ
idlen = 12

-- The head that an id belongs to.
abbrev pub bucket : ℕ → List ℕ → ℕ
bucket hash_bits id = string_hash id % 2 ^ hash_bits

-- The loop of `add_to_uhash`, with the rounds that are left.
unfoldable pub find_end : ℕ → Shm → Slot → Option Slot
find_end zero s p = none
find_end (suc times) s p = elim (load s p) [ none ↦ some p | some k ↦ find_end times s (in_next k) ]

-- The loop of `remove_from_uhash`.
unfoldable pub find_link : ℕ → Shm → ℕ → Slot → Option Slot
find_link zero s n p = none
find_link (suc times) s n p = elim (load s p) [
  | none ↦ some p
  | some k ↦ let rest = find_link times s n (in_next k) in if k == n then some p else rest
]

-- `*p == n`
abbrev pub points_at : Link → ℕ → Bool
points_at none n = false
points_at (some k) n = k == n

-- `if (*p == n) *p = next_in_hash[n];`
unfoldable pub unlink : Shm → ℕ → Slot → Shm
unlink s n p = if points_at (load s p) n then store s p (load s (in_next n)) else s

-- The result of `dosearchuser`, and what is copied to `rightid`.
unfoldable pub search_loop : ℕ → ℕ → Shm → List ℕ → Link → ℕ × Option (List ℕ)
search_loop max_users zero s id p = (0, none)
search_loop max_users (suc times) s id none = (0, none)
search_loop max_users (suc times) s id (some k) =
    let rest = search_loop max_users times s id (load s (in_next k)) in
    if leb max_users k
    then (0, none)
    else if is_same_name (id_at s.userid k) id
    then (k + 1, if length id == 0 then none else some (id_at s.userid k))
    else rest

module _ (max_users hash_bits : ℕ) where
  unfoldable pub add_to_uhash : Shm → ℕ → List ℕ → Option Shm
  add_to_uhash s n id =
      let s1 = record s { userid = set s.userid n (take idlen id) } in
      do
        p ← find_end max_users s1 (in_head (bucket hash_bits id))
        some (store (store s1 p (some n)) (in_next n) none)

  unfoldable pub remove_from_uhash : Shm → ℕ → Option Shm
  remove_from_uhash s n = do
    p ← find_link max_users s n (in_head (bucket hash_bits (id_at s.userid n)))
    some (unlink s n p)

  unfoldable pub dosearchuser : Shm → List ℕ → ℕ × Option (List ℕ)
  dosearchuser s id = search_loop max_users max_users s id (load s (in_head (bucket hash_bits id)))

  unfoldable pub searchuser : Shm → List ℕ → ℕ × Option (List ℕ)
  searchuser s [] = (0, none)
  searchuser s (c ∷ cs) = dosearchuser s (c ∷ cs)

  unfoldable pub getuserid : Shm → ℕ → Option (List ℕ)
  getuserid s num =
      if ltb 0 num && ltb (num - 1) max_users then some (id_at s.userid (num - 1)) else none

  unfoldable pub setuserid : Shm → ℕ → List ℕ → Option Shm
  setuserid s num id =
      if ltb 0 num && leb num max_users
      then (do s1 ← remove_from_uhash s (num - 1); add_to_uhash s1 (num - 1) id)
      else some s
