-- ===== src/Vbuf/Cstr.antt =====
-- `vbuf_cstr`: three reversals make wrapped data one piece at the start of the storage.
use brs_bbs.Prelude.{
  ℕ, ◌+◌, ◌-◌, ◌<◌, ◌≡◌, refl, ap, ◌∙◌, ◌≢◌, inl, inr, Option, none, some, List, [], arith, ltb,
  Bool-cases, length, set, length-set,
}
use brs_bbs.Prelude.Bytes.{
  at, write_at, read_at, length-tabulate, at-tabulate, at-set, at-write_at, length-write_at,
}
use brs_bbs.Vbuf.{Vbuf, size, is_empty, reverse_range, cstr}
use brs_bbs.Vbuf.Contents.{
  IsValid, slot, contents, length-contents, at-contents, contents-eq, contents-empty,
}
use brs_bbs.Vbuf.Text.{at-reverse_range, length-reverse_range}

-- The stages of the wrapped case.
abbrev low_reversed : Vbuf → List ℕ
low_reversed v = reverse_range v.buf 0 v.tail

abbrev both_reversed : Vbuf → List ℕ
both_reversed v = reverse_range (low_reversed v) v.head v.buf_end

abbrev joined : Vbuf → List ℕ
joined v = write_at (both_reversed v) v.tail (read_at (both_reversed v) v.head (v.buf_end - v.head))

abbrev ended : Vbuf → List ℕ
ended v = set (joined v) (size v) 0

module _ (v : Vbuf) (ok : IsValid v) (wrapped : v.tail < v.head) where
  length-both : length (both_reversed v) ≡ length v.buf
  length-both =
      length-reverse_range (low_reversed v) v.head v.buf_end ∙ length-reverse_range v.buf 0 v.tail

  length-ended : length (ended v) ≡ length v.buf
  length-ended =
      length-set (joined v) (size v) 0 ∙ length-write_at (both_reversed v) v.tail _ ∙ length-both

  at-both_low : (j : ℕ) → j < v.tail → at (both_reversed v) j ≡ at v.buf (v.tail - 1 - j)
  at-both_low j h = ground (
    arith,
    at-reverse_range (low_reversed v) v.head v.buf_end j,
    at-reverse_range v.buf 0 v.tail j,
    length-reverse_range v.buf 0 v.tail,
  )

  at-both_high :
      (k : ℕ)
      → k < v.buf_end - v.head
      → at (both_reversed v) (v.head + k) ≡ at v.buf (v.buf_end - 1 - k)
  at-both_high k h = ground (
    arith,
    at-reverse_range (low_reversed v) v.head v.buf_end (v.head + k),
    at-reverse_range v.buf 0 v.tail (v.head + v.buf_end - 1 - (v.head + k)),
    length-reverse_range v.buf 0 v.tail,
  )

  -- The joined pieces are the queue, last byte first.
  at-ended : (j : ℕ) → j < size v → at (ended v) j ≡ at v.buf (slot v (size v - 1 - j))
  at-ended j h = ground (
    arith,
    at-set (joined v) (size v) 0 j,
    length-write_at (both_reversed v) v.tail
        (read_at (both_reversed v) v.head (v.buf_end - v.head)),
    length-both,
    at-write_at (both_reversed v) v.tail (read_at (both_reversed v) v.head (v.buf_end - v.head)) j,
    length-tabulate (v.buf_end - v.head) (λ i. at (both_reversed v) (v.head + i)),
    at-tabulate (v.buf_end - v.head) (λ i. at (both_reversed v) (v.head + i)) (j - v.tail),
    at-both_low j,
    at-both_high (j - v.tail),
  )

  at-unwrapped :
      (i : ℕ) → i < size v → at (reverse_range (ended v) 0 (size v)) i ≡ at v.buf (slot v i)
  at-unwrapped i h =
      ground
        (arith, at-reverse_range (ended v) 0 (size v) i, length-ended, at-ended (size v - 1 - i))

  at-end : at (reverse_range (ended v) 0 (size v)) (size v) ≡ 0
  at-end = ground (
    arith,
    at-reverse_range (ended v) 0 (size v) (size v),
    length-ended,
    length-set (joined v) (size v) 0,
    at-set (joined v) (size v) 0 (size v),
  )

-- What `vbuf_cstr` promises of the queue `q`: NULL exactly if it is empty; else a string that is
-- the queue followed by a NUL, inside a valid buffer that still holds the queue.
abbrev pub Strings : List ℕ → Option (ℕ × Vbuf) → Type 0
Strings q none = q ≡ []
Strings q (some (p, v')) =
    (q ≢ [])
    × IsValid v'
    × (contents v' ≡ q)
    × ((i : ℕ) → i < length q → at v'.buf (p + i) ≡ at q i)
    × (at v'.buf (p + length q) ≡ 0)

Strings-flat :
    (v v' : Vbuf) (p : ℕ)
    → 0 < size v
    → IsValid v'
    → v'.head ≡ p
    → v'.tail ≡ p + size v
    → ((i : ℕ) → i < size v → at v'.buf (p + i) ≡ at v.buf (slot v i))
    → at v'.buf (p + size v) ≡ 0
    → Strings (contents v) (some (p, v'))
Strings-flat v v' p more ok' head_is tail_is cells end =
    let size_is : size v' ≡ size v = ground arith in
    (
      λ e. omega (arith, ap length e, length-contents v),
      ok',
      contents-eq v' (contents v) (omega (arith, length-contents v))
          (λ i l. ground (arith, at-contents v i, cells i)),
      λ i l. ground (arith, at-contents v i, cells i, length-contents v),
      ground (arith, length-contents v),
    )

unwraps :
    (v : Vbuf)
    → IsValid v
    → v.tail < v.head
    → Strings
        (contents v)
        (some (0, record v { buf = reverse_range (ended v) 0 (size v); head = 0; tail = size v }))
unwraps v ok wrapped =
    Strings-flat v _ 0 (ground arith)
      (ground (arith, length-reverse_range (ended v) 0 (size v), length-ended v ok wrapped)) refl
      (omega arith)
      (λ i l.
        ap (at (reverse_range (ended v) 0 (size v))) (omega arith) ∙ at-unwrapped v ok wrapped i l)
      (ap (at (reverse_range (ended v) 0 (size v))) (omega arith) ∙ at-end v ok wrapped)

-- `vbuf_cstr` returns NULL exactly on an empty buffer; else the returned pointer is at all the bytes
-- held, in order and in one piece, with a NUL behind them, and the buffer is valid and holds the
-- same queue as before.
pub cstr_refines : (v : Vbuf) → IsValid v → Strings (contents v) (cstr v)
unfolding cstr
cstr_refines v ok = elim (Bool-cases (is_empty v)) [
  | inl e ↦ rw e (contents-empty v (ground arith))
  | inr m ↦ rw m (elim (Bool-cases (ltb v.head v.tail)) [
    | inl flat ↦ rw flat (
        Strings-flat v _ v.head (ground arith) (ground (arith, length-set v.buf v.tail 0)) refl
          (ground arith) (λ i l. ground (arith, at-set v.buf v.tail 0 (v.head + i)))
          (ground (arith, at-set v.buf v.tail 0 v.tail)))
    | inr wrapped ↦ rw wrapped (unwraps v ok (ground arith))
  ])
]
