-- ===== src/Vbuf/Contents.antt =====
-- The representation invariant of VBUF, and the queue of bytes that a buffer holds.
use brs_bbs.Prelude.{ℕ, ◌+◌, ◌-◌, ◌≤◌, ◌<◌, ◌≡◌, List, [], arith, ltb, if◌then◌else◌, length}
use brs_bbs.Prelude.Bytes.{at, tabulate, length-tabulate, at-tabulate, list_ext}
use brs_bbs.Vbuf.{Vbuf, size, attach, clear}

pub record IsValid (v : Vbuf) : Type 0 where
  pub storage : v.buf_end ≡ length v.buf
  pub one_free : v.capacity + 1 ≡ v.buf_end
  pub head_in : v.head < v.buf_end
  pub tail_in : v.tail < v.buf_end

-- The offset of the byte `i` places behind the head.
abbrev pub slot : Vbuf → ℕ → ℕ
slot v i = if ltb (v.head + i) v.buf_end then v.head + i else v.head + i - v.buf_end

-- The bytes held, oldest first.
unfoldable pub contents : Vbuf → List ℕ
contents v = tabulate (size v) (λ i. at v.buf (slot v i))

pub length-contents : (v : Vbuf) → length (contents v) ≡ size v
unfolding contents
length-contents v = length-tabulate (size v) _

pub at-contents : (v : Vbuf) (i : ℕ) → i < size v → at (contents v) i ≡ at v.buf (slot v i)
unfolding contents
at-contents v i h = at-tabulate (size v) (λ i. at v.buf (slot v i)) i h

-- To know a buffer's contents is to know its size and its cells.
pub contents-eq :
    (v : Vbuf) (q : List ℕ)
    → size v ≡ length q
    → ((i : ℕ) → i < size v → at v.buf (slot v i) ≡ at q i)
    → contents v ≡ q
contents-eq v q e h = list_ext (contents v) q (omega (arith, length-contents v)) (λ i l.
    let l' : i < size v = omega (arith, length-contents v) in rw (at-contents v i l') (h i l'))

pub slot_in : (v : Vbuf) (i : ℕ) → IsValid v → i < size v → slot v i < length v.buf
slot_in v i ok h = ground arith

pub size-le_capacity : (v : Vbuf) → IsValid v → size v ≤ v.capacity
size-le_capacity v ok = ground arith

-- A buffer attached to a storage of at least two bytes is valid and holds nothing.
pub attach-IsValid :
    (storage : List ℕ) (szbuf : ℕ)
    → 1 < szbuf
    → szbuf ≡ length storage
    → IsValid (attach storage szbuf) × (contents (attach storage szbuf) ≡ [])
unfolding attach
attach-IsValid storage szbuf h e =
    (omega arith, contents-eq _ [] (ground arith) (λ i l. ground arith))

-- So is a cleared one.
pub clear-IsValid : (v : Vbuf) → IsValid v → IsValid (clear v) × (contents (clear v) ≡ [])
unfolding clear
clear-IsValid v ok = (omega arith, contents-eq _ [] (ground arith) (λ i l. ground arith))

pub contents-empty : (v : Vbuf) → size v ≡ 0 → contents v ≡ []
contents-empty v e = contents-eq v [] e (λ i l. absurd (omega arith))
