-- ===== src/Vector.antt =====
-- The vector of names (common/sys/vector.c).
--
-- A name is its bytes without the NUL, and the storage is the list of the names in it with its size
-- in bytes; what lies behind them there is never read, and left out. `allocated` is whether the base
-- pointer is not NULL. `none` is a failed assertion.
pub mod Capacity
pub mod Items
pub mod Sublist
mod Tests
use brs_bbs.Prelude.{
  ℕ, zero, suc, ◌+◌, ◌-◌, ◌*◌, ◌/◌, ◌%◌, ◌^◌, ◌≤◌, ◌<◌, min, ◌≡◌, refl, sym, ap, ap₂, ◌∙◌, subst,
  ◌≢◌, ◌↔◌, ◌⊎◌, inl, inr, Bool, true, false, not, ◌&&◌, ◌||◌, Option, none, some, List, [], ◌∷◌,
  ◌++◌, append-nil, append_assoc, map, flatten, arith, ltb, leb, ◌==◌, if◌then◌else◌, ltb→lt,
  lt→ltb, leb→le, ==_iff, tests, Bool-cases, Option-cases, List-cases, ◌>>=◌, take-whole,
  drop-whole, take-append_le, take-append_past, drop-append_past, drop-drop, take-take,
  drop-append_le, drop-take, within, length, get_elem?, set, length-append, length-set, take, drop,
  replicate, length-take, length-drop, take-append-drop, length-replicate,
}
use brs_bbs.Prelude.Case.{is_same_name, to_lower}

abbrev pub Name : Type 0
Name = List ℕ

pub record Vector : Type 0 where
  pub size : ℕ
  pub length_ : ℕ
  pub capacity : ℕ
  pub base : List Name
  pub allocated : Bool
  pub constant : Bool

unfoldable pub init : ℕ → Option Vector
init zero = none
init (suc n) = some (record {
  size = suc n;
  length_ = 0;
  capacity = 0;
  base = [];
  allocated = false;
  constant = false;
})

unfoldable pub init_const : List Name → ℕ → Option Vector
init_const base zero = none
init_const base (suc n) = some (record {
  size = suc n;
  length_ = length base;
  capacity = 0;
  base = base;
  allocated = true;
  constant = true;
})

-- `Vector_delete`
unfoldable pub delete : Vector → Vector
delete v = record {
  size = v.size;
  length_ = 0;
  capacity = 0;
  base = [];
  allocated = false;
  constant = false;
}

unfoldable pub clear : Vector → ℕ → Option Vector
clear v size = init size

abbrev pub min_capacity : ℕ
min_capacity = 4096

-- `while (self->capacity < capacity) self->capacity *= 2;`
-- INT_MAX. A product of `int`s that is larger is undefined: the model ends with `none`.
abbrev pub int_max : ℕ
int_max = 2147483647

unfoldable pub double_loop : ℕ → ℕ → ℕ → Option ℕ
double_loop zero have want = none
double_loop (suc fuel) have want =
    let rest = double_loop fuel (have * 2) want in
    if ltb have want then (if ltb int_max (have * 2) then none else rest) else some have

unfoldable pub resize : Vector → ℕ → Option Vector
resize v n =
    let want = n * v.size in
    let start = if v.capacity == 0 then min_capacity else v.capacity in
    if v.constant || ltb int_max want
    then none
    else if want == 0
    then some (record v { capacity = 0; base = []; allocated = false })
    else (do
      got ← double_loop (want + 1) start want
      some (record v { capacity = got; allocated = true }))

-- What `strlcpy` into a slot keeps of a name.
abbrev pub kept : ℕ → Name → Name
kept size name = take (size - 1) name

unfoldable pub add : Vector → Name → Option Vector
add v name = do
  w ← resize v (v.length_ + 1)
  some (record w { base = v.base ++ kept v.size name ∷ []; length_ = v.length_ + 1 })

-- A name of the storage.
abbrev pub name_at : List Name → ℕ → Name
name_at [] i = []
name_at (x ∷ xs) zero = x
name_at (x ∷ xs) (suc i) = name_at xs i

unfoldable pub get : Vector → ℕ → Option Name
get v idx = if ltb idx v.length_ then some (name_at v.base idx) else none

-- The loops over the names from `i` on, with `n` left.
unfoldable pub search_loop : ℕ → List Name → ℕ → Name → Option ℕ
search_loop zero base i name = none
search_loop (suc n) base i name =
    let rest = search_loop n base (i + 1) name in
    if is_same_name (name_at base i) name then some i else rest

-- -1 is `none`.
unfoldable pub search : Vector → Name → Option ℕ
search v name = search_loop v.length_ v.base 0 name

-- 1, and what is left, where a name was found.
unfoldable pub remove : Vector → Name → Option (ℕ × Vector)
remove v name = if v.constant then none else elim (search_loop v.length_ v.base 0 name) [
  | none ↦ some (0, v)
  | some i ↦
      let last = kept v.size (name_at v.base (v.length_ - 1)) in
      let w : Vector = record v {
        base = take (v.length_ - 1) (set v.base i last);
        length_ = v.length_ - 1;
      } in
      (do r ← resize w (v.length_ - 1); some (1, r))
]

-- `strncasecmp(name, tag, strlen(tag)) == 0`
unfoldable pub starts_with : Name → Name → Bool
starts_with name [] = true
starts_with [] (t ∷ ts) = false
starts_with (c ∷ cs) (t ∷ ts) = if to_lower c == to_lower t then starts_with cs ts else false

unfoldable pub sublist_loop : List Name → Name → Vector → Option Vector
sublist_loop [] tag dst = some dst
sublist_loop (x ∷ xs) tag dst =
    if starts_with x tag then (do d ← add dst x; sublist_loop xs tag d) else sublist_loop xs tag dst

-- The empty tag is a prefix of every name, as `len==0` says.
unfoldable pub sublist : Vector → Name → Option Vector
sublist src tag = do dst ← init src.size; sublist_loop src.base tag dst

unfoldable pub max_len_loop : List Name → ℕ → ℕ → ℕ
max_len_loop [] count maxlen = maxlen
max_len_loop (x ∷ xs) zero maxlen = maxlen
max_len_loop (x ∷ xs) (suc count) maxlen =
    max_len_loop xs count (if ltb maxlen (length x) then length x else maxlen)

unfoldable pub max_len : Vector → ℕ → ℕ → ℕ
max_len v offset count = max_len_loop (drop offset v.base) count 0
