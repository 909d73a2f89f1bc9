-- ===== src/Vbuf/Search.antt =====
-- `vbuf_strchr` finds the first occurrence in the queue, also across the wrap.
use brs_bbs.Prelude.{
  ℕ, zero, suc, ◌+◌, ◌-◌, ◌≤◌, ◌<◌, ◌≡◌, inl, inr, Option, none, some, List, [], ◌∷◌, ◌++◌, arith,
  ltb, ◌==◌, if◌then◌else◌, Bool-cases, length, length-append,
}
use brs_bbs.Prelude.Bytes.{
  at, read_at, length-tabulate, at-tabulate, at-append, read_at-suc, read_at-zero,
}
use brs_bbs.Vbuf.{Vbuf, is_empty, scan, strchr}
use brs_bbs.Vbuf.Contents.{IsValid, contents, contents-eq, contents-empty}

-- The index of the first `c`.
unfoldable pub index_of : ℕ → List ℕ → Option ℕ
index_of c [] = none
index_of c (x ∷ q) =
    if x == c then some 0 else elim (index_of c q) [ some i ↦ some (i + 1) | none ↦ none ]

abbrev shift : ℕ → Option ℕ → Option ℕ
shift n none = none
shift n (some i) = some (n + i)

abbrev or_else : Option ℕ → Option ℕ → Option ℕ
or_else none b = b
or_else (some a) b = some a

index_of-append :
    (c : ℕ) (p q : List ℕ)
    → index_of c (p ++ q) ≡ or_else (index_of c p) (shift (length p) (index_of c q))
unfolding index_of
index_of-append c [] q = ground arith
index_of-append c (x ∷ p) q = ground (arith, index_of-append c p q)

scan-index_of : (buf : List ℕ) (s n c : ℕ) → scan buf s n c ≡ shift s (index_of c (read_at buf s n))
unfolding scan index_of
scan-index_of buf s zero c = rw read_at-zero
scan-index_of buf s (suc n) c = rw read_at-suc (ground (arith, scan-index_of buf (s + 1) n c))

-- The queue as the one or two pieces of storage that it lies in.
pub contents-flat :
    (v : Vbuf) → IsValid v → v.head ≤ v.tail → contents v ≡ read_at v.buf v.head (v.tail - v.head)
contents-flat v ok h =
    contents-eq v _ (ground (arith, length-tabulate (v.tail - v.head) (λ i. at v.buf (v.head + i))))
      (λ i l. ground (arith, at-tabulate (v.tail - v.head) (λ i. at v.buf (v.head + i)) i))

pub contents-wrapped :
    (v : Vbuf)
    → IsValid v
    → v.tail < v.head
    → contents v ≡ read_at v.buf v.head (v.buf_end - v.head) ++ read_at v.buf 0 v.tail
contents-wrapped v ok h =
    contents-eq v _
      (ground (
        arith,
        length-append (read_at v.buf v.head (v.buf_end - v.head)) (read_at v.buf 0 v.tail),
        length-tabulate (v.buf_end - v.head) (λ i. at v.buf (v.head + i)),
        length-tabulate v.tail (λ i. at v.buf (0 + i)),
      ))
      (λ i l. ground (
        arith,
        at-append (read_at v.buf v.head (v.buf_end - v.head)) (read_at v.buf 0 v.tail) i,
        length-tabulate (v.buf_end - v.head) (λ i. at v.buf (v.head + i)),
        at-tabulate (v.buf_end - v.head) (λ i. at v.buf (v.head + i)) i,
        at-tabulate v.tail (λ i. at v.buf (0 + i)) (i - (v.buf_end - v.head)),
      ))

-- `vbuf_strchr` returns the index in the queue of the first `c`, and EOF exactly if there is none.
pub strchr_refines : (v : Vbuf) (c : ℕ) → IsValid v → strchr v c ≡ index_of c (contents v)
unfolding strchr
strchr_refines v c ok = elim (Bool-cases (ltb v.tail v.head)) [
  | inl wrapped ↦
      rw (contents-wrapped v ok (ground arith), index_of-append)
        (ground (
          arith,
          scan-index_of v.buf v.head (v.buf_end - v.head) c,
          scan-index_of v.buf 0 v.tail c,
          length-tabulate (v.buf_end - v.head) (λ i. at v.buf (v.head + i)),
        ))
  | inr flat ↦ elim (Bool-cases (is_empty v)) [
    | inl none_held ↦ rw (contents-empty v (ground arith)) (unfold index_of in ground arith)
    | inr held ↦
        rw (contents-flat v ok (ground arith))
          (ground (arith, scan-index_of v.buf v.head (v.tail - v.head) c))
  ]
]
