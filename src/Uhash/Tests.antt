-- ===== src/Uhash/Tests.antt =====
-- Runs of the hash of user ids on a table of three users, and each theorem at an input.
use brs_bbs.Prelude.{
  ℕ, zero, suc, ◌≡◌, refl, Option, none, some, List, [], ◌∷◌, ◌++◌, arith, ◌>>=◌, take, replicate,
}
use brs_bbs.Uhash.{
  Shm, link_at, load, store, fnv1a_32_strcase, string_hash, find_end, add_to_uhash, find_link,
  unlink, remove_from_uhash, search_loop, dosearchuser, searchuser, getuserid, setuserid,
}
use brs_bbs.Prelude.Case.{is_same_name}
use brs_bbs.Uhash.Chains.{Chains}
use brs_bbs.Uhash.Search.{Answers, Renamed, dosearchuser-Answers, setuserid-Renamed}

program : Unit {0}
unfolding load store is_same_name fnv1a_32_strcase string_hash find_end add_to_uhash find_link
    unlink remove_from_uhash search_loop dosearchuser searchuser getuserid setuserid
program = tt

abbrev empty : Shm
empty = record {
  hash_head = none ∷ none ∷ [];
  next_in_hash = none ∷ none ∷ none ∷ [];
  userid = [] ∷ [] ∷ [] ∷ [];
}

abbrev alice : List ℕ
alice = 97 ∷ 108 ∷ 105 ∷ 99 ∷ 101 ∷ []

abbrev alice_upper : List ℕ
alice_upper = 65 ∷ 76 ∷ 105 ∷ 67 ∷ 69 ∷ []

abbrev bob : List ℕ
bob = 98 ∷ 111 ∷ 98 ∷ []

abbrev two_users : Option Shm
two_users = do s ← setuserid 3 1 empty 2 alice; setuserid 3 1 s 3 bob

abbrev ask : Shm → (ℕ × Option (List ℕ)) × ℕ × ℕ
ask s = (dosearchuser 3 1 s alice_upper, (dosearchuser 3 1 s bob).0, (searchuser 3 1 s []).0)

run : (two_users >>= λ s. some (ask s)) ≡ some ((2, some alice), 3, 0)
unfolding program
run = refl

-- Renamed, a user is found under the new id only.
run_renamed :
    (two_users >>= λ s. setuserid 3 1 s 2 bob >>= λ s. some (ask s)) ≡ some ((0, none), 3, 0)
unfolding program
run_renamed = refl

run_getuserid : (two_users >>= λ s. getuserid 3 1 s 3) ≡ some bob
unfolding program
run_getuserid = refl

-- An id of more than 12 characters is stored cut off, and its user is lost to both searches.
abbrev long_id : List ℕ
long_id = replicate 12 97 ++ 99 ∷ []

abbrev ask_long : Shm → ℕ × ℕ
ask_long s = ((dosearchuser 3 1 s long_id).0, (dosearchuser 3 1 s (take 12 long_id)).0)

run_long : (setuserid 3 1 empty 1 long_id >>= λ s. some (ask_long s)) ≡ some (0, 0)
unfolding program
run_long = refl

links_none : (h : ℕ) → link_at (none ∷ none ∷ []) h ≡ none
links_none zero = refl
links_none (suc zero) = refl
links_none (suc (suc h)) = refl

empty-Chains : Chains 3 1 empty
unfolding load
empty-Chains = record {
  chain = λ h. [];
  links = λ h hh. links_none h;
  hashed = λ h k hh e. absurd (ground arith);
  once = λ h hh. refl;
  heads = refl;
  nexts = refl;
  ids = refl;
}

dosearchuser-Answers_example : Answers empty-Chains alice (dosearchuser 3 1 empty alice).0
dosearchuser-Answers_example = dosearchuser-Answers empty-Chains alice

setuserid-Renamed_example :
    (s' : Shm) × (setuserid 3 1 empty 2 alice ≡ some s') × Renamed empty-Chains 1 alice s'
setuserid-Renamed_example =
    setuserid-Renamed empty-Chains 2 alice (omega arith) (omega arith) (omega arith)
