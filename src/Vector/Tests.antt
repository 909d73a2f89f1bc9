-- ===== src/Vector/Tests.antt =====
-- Runs of the vector of names, and each theorem at an input.
use brs_bbs.Prelude.{
  ℕ, zero, suc, ◌*◌, ◌≤◌, ◌<◌, ◌≡◌, refl, ◌⊎◌, true, false, none, some, [], ◌∷◌, ◌++◌, arith, ◌>>=◌,
  length,
}
use brs_bbs.Prelude.Case.{is_same_name}
use brs_bbs.Vector.{
  Name, Vector, min_capacity, init, init_const, delete, clear, double_loop, resize, kept, add,
  name_at, get, search_loop, search, remove, starts_with, sublist_loop, sublist, max_len_loop,
  max_len,
}
use brs_bbs.Vector.Capacity.{IsValid, add-IsValid}
use brs_bbs.Vector.Items.{IsFirst, Removes, search-remove}
use brs_bbs.Vector.Sublist.{matching}

program : Unit {0}
unfolding is_same_name init init_const delete clear double_loop resize add get search_loop search
    remove starts_with sublist_loop sublist max_len_loop max_len matching
program = tt

abbrev ann : Name
ann = 97 ∷ 110 ∷ 110 ∷ []

abbrev ann_upper : Name
ann_upper = 65 ∷ 78 ∷ 78 ∷ []

abbrev bob : Name
bob = 98 ∷ 111 ∷ 98 ∷ []

abbrev amy : Name
amy = 97 ∷ 109 ∷ 121 ∷ []

abbrev names : Vector
names = record {
  size = 13;
  length_ = 3;
  capacity = 4096;
  base = ann ∷ bob ∷ amy ∷ [];
  allocated = true;
  constant = false;
}

built : (init 13 >>= λ v. add v ann >>= λ v. add v bob >>= λ v. add v amy) ≡ some names
unfolding program
built = refl

-- The last name takes the free place.
removed : (remove names ann_upper >>= λ r. some r.1.base) ≡ some (amy ∷ bob ∷ [])
unfolding program
removed = refl

found : (search names ann_upper ≡ some 0) × (search names (99 ∷ []) ≡ none) × (get names 3 ≡ none)
unfolding program
found = (refl, refl, refl)

-- 400 names of 13 bytes are more than the first storage holds.
grown : (resize names 400 >>= λ v. some v.capacity) ≡ some 8192
unfolding program
grown = refl

longest : max_len names 1 5 ≡ 3
unfolding program
longest = refl

refused : (init_const (ann ∷ []) 13 >>= λ v. add v bob) ≡ none
unfolding program
refused = refl

names-short : (i : ℕ) → i < 3 → length (name_at (ann ∷ bob ∷ amy ∷ []) i) < 13
names-short zero h = omega arith
names-short (suc zero) h = omega arith
names-short (suc (suc zero)) h = omega arith
names-short (suc (suc (suc i))) h = absurd (omega arith)

names-IsValid : IsValid names
names-IsValid = record {
  sized = omega arith;
  owned = refl;
  counted = refl;
  short = names-short;
  room = omega arith;
  fits_int = omega arith;
}

add-IsValid_example :
    (w : Vector) × (add names bob ≡ some w)
    × IsValid w
    × (w.base ≡ names.base ++ kept 13 bob ∷ [])
    × (w.size ≡ 13)
    × (4 * 13 ≤ w.capacity)
    × ((w.capacity ≡ 4096) ⊎ (w.capacity ≡ min_capacity) ⊎ (w.capacity < 2 * (4 * 13)))
add-IsValid_example = add-IsValid names bob names-IsValid (omega arith)

search-remove_example :
    IsFirst names.base 0 3 ann_upper (search names ann_upper)
    × Removes names ann_upper (search names ann_upper)
search-remove_example = search-remove names ann_upper names-IsValid
