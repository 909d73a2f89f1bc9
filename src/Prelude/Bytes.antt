-- ===== src/Prelude/Bytes.antt =====
-- Byte arrays as lists: reads, `memcpy` into an array, and equality by length and elements.
use brs_bbs.Prelude.{
  ℕ, zero, suc, ◌+◌, ◌-◌, ◌<◌, ◌≡◌, refl, ap, ap₂, ◌∙◌, ◌&&◌, List, [], ◌∷◌, ◌++◌, arith, ltb, leb,
  ◌==◌, if◌then◌else◌, length, set, take,
}

-- `xs[i]`; a read out of bounds is 0, and the theorems of the clients show that none is made.
abbrev pub at : List ℕ → ℕ → ℕ
at [] i = 0
at (x ∷ xs) zero = x
at (x ∷ xs) (suc i) = at xs i

-- `memcpy(xs + o, bs, len)`; what would fall outside the array is dropped.
pub write_at : List ℕ → ℕ → List ℕ → List ℕ
write_at [] o bs = []
write_at (x ∷ xs) (suc o) bs = x ∷ write_at xs o bs
write_at (x ∷ xs) zero [] = x ∷ xs
write_at (x ∷ xs) zero (b ∷ bs) = b ∷ write_at xs zero bs

unfoldable pub tabulate : ℕ → (ℕ → ℕ) → List ℕ
tabulate zero f = []
tabulate (suc n) f = f 0 ∷ tabulate n (λ i. f (suc i))

-- `xs[o..o+n)`
abbrev pub read_at : List ℕ → ℕ → ℕ → List ℕ
read_at xs o n = tabulate n (λ i. at xs (o + i))

pub length-tabulate : (n : ℕ) (f : ℕ → ℕ) → length (tabulate n f) ≡ n
unfolding tabulate
length-tabulate zero f = refl
length-tabulate (suc n) f = ap suc (length-tabulate n (λ i. f (suc i)))

pub at-tabulate : (n : ℕ) (f : ℕ → ℕ) (i : ℕ) → i < n → at (tabulate n f) i ≡ f i
unfolding tabulate
at-tabulate zero f i h = absurd (omega arith)
at-tabulate (suc n) f zero h = refl
at-tabulate (suc n) f (suc i) h = at-tabulate n (λ i. f (suc i)) i (omega arith)

pub length-write_at : (xs : List ℕ) (o : ℕ) (bs : List ℕ) → length (write_at xs o bs) ≡ length xs
unfolding write_at
length-write_at [] o bs = refl
length-write_at (x ∷ xs) (suc o) bs = ap suc (length-write_at xs o bs)
length-write_at (x ∷ xs) zero [] = refl
length-write_at (x ∷ xs) zero (b ∷ bs) = ap suc (length-write_at xs zero bs)

pub at-write_at :
    (xs : List ℕ) (o : ℕ) (bs : List ℕ) (i : ℕ)
    → i < length xs
    → at (write_at xs o bs) i
      ≡ (if leb o i && ltb i (o + length bs) then at bs (i - o) else at xs i)
unfolding write_at
at-write_at [] o bs i h = absurd (omega arith)
at-write_at (x ∷ xs) (suc o) bs zero h = ground arith
at-write_at (x ∷ xs) (suc o) bs (suc i) h = ground (arith, at-write_at xs o bs i)
at-write_at (x ∷ xs) zero [] i h = ground arith
at-write_at (x ∷ xs) zero (b ∷ bs) zero h = ground arith
at-write_at (x ∷ xs) zero (b ∷ bs) (suc i) h = ground (arith, at-write_at xs zero bs i)

pub at-append :
    (xs ys : List ℕ) (i : ℕ)
    → at (xs ++ ys) i ≡ (if ltb i (length xs) then at xs i else at ys (i - length xs))
at-append [] ys i = ground arith
at-append (x ∷ xs) ys zero = ground arith
at-append (x ∷ xs) ys (suc i) = ground (arith, at-append xs ys i)

pub list_ext :
    (xs ys : List ℕ)
    → length xs ≡ length ys
    → ((i : ℕ) → i < length xs → at xs i ≡ at ys i)
    → xs ≡ ys
list_ext [] [] e h = refl
list_ext [] (y ∷ ys) e h = absurd (omega arith)
list_ext (x ∷ xs) [] e h = absurd (omega arith)
list_ext (x ∷ xs) (y ∷ ys) e h =
    ap₂ ◌∷◌ (h 0 (omega arith)) (list_ext xs ys (omega arith) (λ i l. h (suc i) (omega arith)))

pub at-set :
    (xs : List ℕ) (j c i : ℕ) → i < length xs → at (set xs j c) i ≡ (if i == j then c else at xs i)
at-set [] j c i h = absurd (omega arith)
at-set (x ∷ xs) zero c zero h = refl
at-set (x ∷ xs) zero c (suc i) h = ground arith
at-set (x ∷ xs) (suc j) c zero h = ground arith
at-set (x ∷ xs) (suc j) c (suc i) h = ground (arith, at-set xs j c i)

pub tabulate-eq : (n : ℕ) (f g : ℕ → ℕ) → ((i : ℕ) → f i ≡ g i) → tabulate n f ≡ tabulate n g
unfolding tabulate
tabulate-eq zero f g h = refl
tabulate-eq (suc n) f g h = ap₂ ◌∷◌ (h 0) (tabulate-eq n _ _ (λ i. h (suc i)))

pub read_at-suc : (xs : List ℕ) (o n : ℕ) → read_at xs o (suc n) ≡ at xs o ∷ read_at xs (o + 1) n
unfolding tabulate
read_at-suc xs o n =
    ap₂ ◌∷◌ (ap (at xs) (omega arith)) (tabulate-eq n _ _ (λ i. ap (at xs) (omega arith)))

pub read_at-zero : (xs : List ℕ) (o : ℕ) → read_at xs o 0 ≡ []
unfolding tabulate
read_at-zero xs o = refl

-- A list of bytes.
abbrev pub AreBytes : List ℕ → Type 0
AreBytes [] = Unit {0}
AreBytes (c ∷ cs) = (c < 256) × AreBytes cs

pub AreBytes-take : (n : ℕ) (s : List ℕ) → AreBytes s → AreBytes (take n s)
AreBytes-take zero s w = tt
AreBytes-take (suc n) [] w = tt
AreBytes-take (suc n) (c ∷ cs) (wc, w) = (wc, AreBytes-take n cs w)

pub read_at-whole : (xs : List ℕ) → read_at xs 0 (length xs) ≡ xs
read_at-whole xs = list_ext _ _ (length-tabulate (length xs) _) (λ i l.
    at-tabulate (length xs) (λ j. at xs (0 + j)) i
      (omega (arith, length-tabulate (length xs) (λ j. at xs (0 + j))))
    ∙ ap (at xs) (omega arith))
