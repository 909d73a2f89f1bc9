-- ===== src/Vector/Sublist.antt =====
-- `Vector_sublist` is a filter.
use brs_bbs.Prelude.{
  ℕ, zero, suc, ◌+◌, ◌-◌, ◌*◌, ◌^◌, ◌≤◌, ◌<◌, ◌≡◌, refl, sym, ap, ◌∙◌, inl, inr, some, List, [],
  ◌∷◌, ◌++◌, append-nil, append_assoc, arith, if◌then◌else◌, Bool-cases, take-whole, length,
  length-append,
}
use brs_bbs.Vector.{Name, Vector, init, name_at, add, starts_with, sublist_loop, sublist, kept}
use brs_bbs.Vector.Capacity.{IsValid, add-IsValid}

unfoldable pub matching : Name → List Name → List Name
matching tag [] = []
matching tag (x ∷ xs) = if starts_with x tag then x ∷ matching tag xs else matching tag xs

abbrev AreShort : ℕ → List Name → Type 0
AreShort size [] = Unit {0}
AreShort size (x ∷ xs) = (length x < size) × AreShort size xs

one_more :
    (v : Vector) (x : Name) (d : Vector)
    → IsValid v
    → IsValid d
    → d.base ≡ v.base ++ kept v.size x ∷ []
    → d.length_ ≡ v.length_ + 1
one_more v x d ok okd base =
    omega
      (arith, ok.counted, okd.counted, ap length base, length-append v.base (kept v.size x ∷ []))

both_rooms :
    (l n s : ℕ) → (l + suc n) * s ≤ 2 ^ 30 → ((l + n) * s ≤ 2 ^ 30) × ((l + 1) * s ≤ 2 ^ 30)
both_rooms l n s h = (grind arith, grind arith)

same_room : (l n s : ℕ) → (l + suc n) * s ≤ 2 ^ 30 → (l + 1 + n) * s ≤ 2 ^ 30
same_room l n s h = grind arith

from_empty : (a l s : ℕ) → a ≡ l → l * s ≤ 2 ^ 30 → (0 + a) * s ≤ 2 ^ 30
from_empty a l s e h = rw e (grind (arith, h))

sublist_loop-matching :
    (xs : List Name) (tag : Name) (dst : Vector)
    → IsValid dst
    → AreShort dst.size xs
    → (dst.length_ + length xs) * dst.size ≤ 2 ^ 30
    → (w : Vector) × (sublist_loop xs tag dst ≡ some w)
      × IsValid w
      × (w.base ≡ dst.base ++ matching tag xs)
unfolding sublist_loop matching
sublist_loop-matching [] tag dst ok s small = (dst, refl, ok, sym (append-nil dst.base))
sublist_loop-matching (x ∷ xs) tag dst ok (short, s) small = elim (Bool-cases (starts_with x tag)) [
  | inr other ↦
      let rest =
        sublist_loop-matching xs tag dst ok s
          (both_rooms dst.length_ (length xs) dst.size small).0 in
      rw other rest
  | inl hit ↦
      let (d, e, ok', base, size, len) =
        added dst x ok short (both_rooms dst.length_ (length xs) dst.size small).1 in
      let (w, e', okw, basew) =
        sublist_loop-matching xs tag d ok' (rw size s)
          (rw (len, size) (same_room dst.length_ (length xs) dst.size small)) in
      (
        w,
        rw (hit, e) e',
        okw,
        rw hit (
            basew
            ∙ ap (λ b. b ++ matching tag xs) base
            ∙ append_assoc dst.base (x ∷ []) (matching tag xs)),
      )
]
  where
    added :
        (v : Vector) (x : Name)
        → IsValid v
        → length x < v.size
        → (v.length_ + 1) * v.size ≤ 2 ^ 30
        → (d : Vector) × (add v x ≡ some d)
          × IsValid d
          × (d.base ≡ v.base ++ x ∷ [])
          × (d.size ≡ v.size)
          × (d.length_ ≡ v.length_ + 1)
    added v x ok short small =
        let (d, e, okd, base, size, _, _) = add-IsValid v x ok small in
        (
          d,
          e,
          okd,
          base ∙ ap (λ n. v.base ++ n ∷ []) (take-whole (v.size - 1) x (omega arith)),
          size,
          one_more v x d ok okd base,
        )

shorts :
    (size : ℕ) (xs : List Name)
    → ((i : ℕ) → i < length xs → length (name_at xs i) < size)
    → AreShort size xs
shorts size [] h = tt
shorts size (x ∷ xs) h = (h 0 (omega arith), shorts size xs (λ i l. h (suc i) (omega arith)))

init-IsValid :
    (size : ℕ)
    → 1 ≤ size
    → (v : Vector) × (init size ≡ some v)
      × IsValid v
      × (v.base ≡ [])
      × (v.size ≡ size)
      × (v.length_ ≡ 0)
unfolding init
init-IsValid zero h = absurd (omega arith)
init-IsValid (suc n) h = (
  _,
  refl,
  record {
    sized = h;
    owned = refl;
    counted = refl;
    short = λ i l. absurd (omega arith);
    room = omega arith;
    fits_int = omega arith;
  },
  refl,
  refl,
  refl,
)

-- `Vector_sublist` of a valid vector of at most 2^30 bytes holds the names that start with the tag, whatever their case,
-- in their order, and is valid.
pub sublist-matching :
    (src : Vector) (tag : Name)
    → IsValid src
    → src.length_ * src.size ≤ 2 ^ 30
    → (w : Vector) × (sublist src tag ≡ some w) × IsValid w × (w.base ≡ matching tag src.base)
unfolding sublist
sublist-matching src tag ok small =
    let (dst, e, okd, none_yet, size, none_counted) = init-IsValid src.size ok.sized in
    let all_short = shorts src.size src.base (λ i l. ok.short i (omega (arith, ok.counted))) in
    let (w, e', okw, base) = sublist_loop-matching src.base tag dst okd (rw size all_short) (
      rw (none_counted, size)
        (from_empty (length src.base) src.length_ src.size ok.counted small)) in
    (w, rw e e', okw, base ∙ ap (λ b. b ++ matching tag src.base) none_yet)
