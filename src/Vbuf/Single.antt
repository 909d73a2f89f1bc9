-- ===== src/Vbuf/Single.antt =====
-- One byte at a time: `vbuf_add`, `vbuf_pop`, `vbuf_popn` and `vbuf_peekat` as queue operations.
use brs_bbs.Prelude.{
  ℕ, zero, suc, ◌+◌, ◌-◌, ◌≤◌, ◌<◌, ◌≡◌, refl, inl, inr, ◌&&◌, Option, none, some, List, [], ◌∷◌,
  ◌++◌, arith, ltb, if◌then◌else◌, Bool-cases, length, length-append, length-set, drop, length-drop,
}
use brs_bbs.Prelude.Bytes.{at, at-append, at-set}
use brs_bbs.Vbuf.{Vbuf, size, added, add, popped, pop, peek, is_empty, popn, peekat}
use brs_bbs.Vbuf.Contents.{
  IsValid, slot, contents, length-contents, at-contents, contents-eq, size-le_capacity,
  contents-empty,
}

pub added-IsValid : (v : Vbuf) (c : ℕ) → IsValid v → IsValid (added v c)
added-IsValid v c ok = ground (arith, length-set v.buf v.tail c)

size-added : (v : Vbuf) (c : ℕ) → IsValid v → size v < v.capacity → size (added v c) ≡ size v + 1
size-added v c ok room = ground arith

at-added :
    (v : Vbuf) (c i : ℕ)
    → IsValid v
    → size v < v.capacity
    → i < size v + 1
    → at (added v c).buf (slot (added v c) i) ≡ at (contents v ++ (c ∷ [])) i
at-added v c i ok room l = ground (
  arith,
  at-set v.buf v.tail c (slot v i),
  at-append (contents v) (c ∷ []) i,
  at-contents v i,
  length-contents v,
)

contents-added :
    (v : Vbuf) (c : ℕ)
    → IsValid v
    → size v < v.capacity
    → contents (added v c) ≡ contents v ++ (c ∷ [])
contents-added v c ok room =
    contents-eq (added v c) _
      (omega
        (arith, size-added v c ok room, length-append (contents v) (c ∷ []), length-contents v))
      (λ i l. at-added v c i ok room (omega (arith, size-added v c ok room)))

-- `vbuf_add` returns 0 and changes nothing exactly when the capacity is used up; else it returns 1
-- and appends the byte. The buffer stays valid.
pub add_refines :
    (v : Vbuf) (c : ℕ)
    → IsValid v
    → IsValid (add v c).1
      × ((add v c).0 ≡ ltb (length (contents v)) v.capacity)
      × (contents (add v c).1
          ≡ (if ltb (length (contents v)) v.capacity then contents v ++ (c ∷ []) else contents v))
unfolding add
add_refines v c ok =
    ground (arith, added-IsValid v c, contents-added v c, length-contents v, size-le_capacity v)

pub popped-IsValid : (v : Vbuf) → IsValid v → IsValid (popped v)
popped-IsValid v ok = ground arith

pub contents-popped :
    (v : Vbuf) → IsValid v → 0 < size v → contents v ≡ at v.buf v.head ∷ contents (popped v)
contents-popped v ok more =
    contents-eq v _ (omega (arith, length-contents (popped v), size-popped)) cell
  where
    size-popped : size (popped v) + 1 ≡ size v
    size-popped = ground arith

    cell : (i : ℕ) → i < size v → at v.buf (slot v i) ≡ at (at v.buf v.head ∷ contents (popped v)) i
    cell zero l = ground arith
    cell (suc i) l = ground (arith, at-contents (popped v) i)

-- What a queue gives up at a pop.
abbrev pub Pops : List ℕ → Option ℕ → List ℕ → Type 0
Pops [] r q = (r ≡ none) × (q ≡ [])
Pops (c ∷ rest) r q = (r ≡ some c) × (q ≡ rest)

-- `vbuf_pop` and `vbuf_peek` return EOF exactly on an empty buffer, which pop leaves alone; else
-- both return the oldest byte, and pop removes it. The buffer stays valid.
pub pop_refines :
    (v : Vbuf)
    → IsValid v
    → IsValid (pop v).1 × Pops (contents v) (pop v).0 (contents (pop v).1) × (peek v ≡ (pop v).0)
unfolding pop
pop_refines v ok = elim (Bool-cases (is_empty v)) [
  | inl e ↦ rw e (ok, rw (contents-empty v (ground arith)) (refl, refl), refl)
  | inr m ↦ rw m (popped-IsValid v ok, rw (contents-popped v ok (ground arith)) (refl, refl), refl)
]

at-drop : (n : ℕ) (xs : List ℕ) (i : ℕ) → at (drop n xs) i ≡ at xs (n + i)
at-drop zero xs i = ground arith
at-drop (suc n) [] i = refl
at-drop (suc n) (x ∷ xs) i = ground (arith, at-drop n xs i)

-- Within what is held, `vbuf_popn` drops exactly the oldest `n` bytes and keeps the buffer valid.
pub popn_refines :
    (v : Vbuf) (n : ℕ)
    → IsValid v
    → n ≤ length (contents v)
    → IsValid (popn v n) × (contents (popn v n) ≡ drop n (contents v))
unfolding popn
popn_refines v n ok h = (
  ground (arith, length-contents v),
  contents-eq (popn v n) (drop n (contents v))
      (ground (arith, length-contents v, length-drop n (contents v)))
      (λ i l. ground (arith, length-contents v, at-drop n (contents v) i, at-contents v (n + i))),
)

-- On a valid buffer `vbuf_add` returns 0 and changes nothing exactly when the capacity is used up,
-- else it returns 1 and appends the byte; `vbuf_pop` and `vbuf_peek` return EOF exactly on an empty
-- buffer, else the oldest byte, which pop removes; and of at most what is held `vbuf_popn` drops
-- exactly the oldest bytes. All leave the buffer valid.
pub single_refines :
    (v : Vbuf) (c n : ℕ)
    → IsValid v
    → n ≤ length (contents v)
    → (IsValid (add v c).1
        × ((add v c).0 ≡ ltb (length (contents v)) v.capacity)
        × (contents (add v c).1 ≡ (
            if ltb (length (contents v)) v.capacity then contents v ++ (c ∷ []) else contents v)))
      × (IsValid (pop v).1
          × Pops (contents v) (pop v).0 (contents (pop v).1)
          × (peek v ≡ (pop v).0))
      × (IsValid (popn v n) × (contents (popn v n) ≡ drop n (contents v)))
single_refines v c n ok h = (add_refines v c ok, pop_refines v ok, popn_refines v n ok h)

-- Asked for more than is held, `vbuf_popn` steps over the tail if the data does not wrap and the
-- new head is inside the storage: the buffer then claims bytes that were never put, where the
-- clipping in the other branch means it to be empty.
pub popn_overrun :
    (v : Vbuf) (n : ℕ)
    → IsValid v
    → v.head ≤ v.tail
    → size v < n
    → v.head + n < v.buf_end
    → size (popn v n) + n ≡ size v + v.buf_end
unfolding popn
popn_overrun v n ok flat more inside = ground arith

-- `vbuf_peekat` at a place that is held returns the byte there; but where the data wraps, the part
-- up to the end of the storage reads as EOF.
pub peekat_held :
    (v : Vbuf) (i : ℕ)
    → IsValid v
    → i < length (contents v)
    → peekat v i
      ≡ (if ltb v.tail v.head && ltb (v.head + i) v.buf_end then none else some (at (contents v) i))
unfolding peekat
peekat_held v i ok l = ground (arith, length-contents v, at-contents v i, size-le_capacity v)

-- At a place behind what is held it returns EOF if the place does not pass the end of the storage.
-- If it does, and the data does not wrap, it returns a byte in front of the head, which the buffer
-- does not hold.
pub peekat_beyond :
    (v : Vbuf) (i : ℕ)
    → IsValid v
    → v.head < v.tail
    → length (contents v) ≤ i
    → i < v.capacity
    → peekat v i
      ≡ (if ltb (v.head + i) v.buf_end then none else some (at v.buf (v.head + i - v.buf_end)))
unfolding peekat
peekat_beyond v i ok flat past room = ground (arith, length-contents v)
