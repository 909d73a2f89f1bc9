-- ===== src/Vbuf/Putblk.antt =====
-- `vbuf_putblk` on the queue.
use brs_bbs.Prelude.{
  ℕ, ◌+◌, ◌-◌, ◌≤◌, ◌<◌, min, ◌≡◌, refl, sym, ap, ◌∙◌, ◌⊎◌, inl, inr, ◌||◌, Option, none, some,
  List, [], ◌∷◌, ◌++◌, append-nil, append_assoc, arith, ltb, ◌==◌, Bool-cases, length,
  length-append,
}
use brs_bbs.Prelude.Bytes.{
  at, read_at, length-tabulate, at-tabulate, length-write_at, at-write_at, at-append, list_ext,
}
use brs_bbs.Vbuf.{Vbuf, size, space, head_sz, put_round, putblk}
use brs_bbs.Vbuf.Contents.{IsValid, slot, contents, length-contents, at-contents, contents-eq}

-- A block splits where a round stops.
read_at_split :
    (p : List ℕ) (n : ℕ) → n ≤ length p → read_at p 0 n ++ read_at p n (length p - n) ≡ p
read_at_split p n h =
    list_ext _ p
      (omega (
        arith,
        length-append (read_at p 0 n) (read_at p n (length p - n)),
        length-tabulate n (λ i. at p (0 + i)),
        length-tabulate (length p - n) (λ i. at p (n + i)),
      ))
      (λ i l. ground (
        arith,
        at-append (read_at p 0 n) (read_at p n (length p - n)) i,
        length-append (read_at p 0 n) (read_at p n (length p - n)),
        length-tabulate n (λ i. at p (0 + i)),
        length-tabulate (length p - n) (λ i. at p (n + i)),
        at-tabulate n (λ i. at p (0 + i)) i,
        at-tabulate (length p - n) (λ i. at p (n + i)) (i - n),
      ))

module _ (v : Vbuf) (p : List ℕ) (ok : IsValid v) (fits : length p ≤ space v) where
  copied : ℕ
  copied = min (head_sz v) (length p)

  put_round-IsValid : IsValid (put_round v p).0
  unfolding put_round
  put_round-IsValid =
      ground (arith, length-write_at v.buf v.tail (read_at p 0 (min (head_sz v) (length p))))

  size-put_round : size (put_round v p).0 ≡ size v + copied
  unfolding put_round copied
  size-put_round = ground arith

  put_round-left : length (put_round v p).1 ≡ length p - copied
  unfolding put_round copied
  put_round-left = length-tabulate _ _

  put_round-contents : contents (put_round v p).0 ≡ contents v ++ read_at p 0 copied
  unfolding put_round copied
  put_round-contents =
      contents-eq (put_round v p).0 _
        (omega (
          arith,
          size-put_round,
          length-append (contents v) (read_at p 0 copied),
          length-tabulate copied (λ i. at p (0 + i)),
          length-contents v,
        ))
        (λ i l. ground (
          arith,
          at-write_at v.buf v.tail (read_at p 0 copied) (slot v i),
          at-append (contents v) (read_at p 0 copied) i,
          at-contents v i,
          length-contents v,
          length-tabulate copied (λ i. at p (0 + i)),
          size-put_round,
        ))

  put_round-split : read_at p 0 copied ++ (put_round v p).1 ≡ p
  unfolding put_round copied
  put_round-split = read_at_split p (min (head_sz v) (length p)) (omega arith)

  -- A round that leaves nothing has appended the whole block.
  put_round-all : (put_round v p).1 ≡ [] → contents (put_round v p).0 ≡ contents v ++ p
  put_round-all e =
      let whole : read_at p 0 copied ≡ p =
        sym (append-nil _) ∙ ap (λ r. read_at p 0 copied ++ r) (sym e) ∙ put_round-split in
      put_round-contents ∙ ap (λ r. contents v ++ r) whole

-- Behind the first round nothing is left, or the tail has gone round to the start, and the second
-- round has room for all the rest.
put_round-rest :
    (v : Vbuf) (p : List ℕ)
    → IsValid v
    → length p ≤ space v
    → let (v1, p1) = put_round v p in (length p1 ≤ space v1) × (length p1 ≤ head_sz v1)
unfolding put_round
put_round-rest v p ok fits = ground (
  arith,
  length-tabulate (length p - min (head_sz v) (length p))
      (λ i. at p (min (head_sz v) (length p) + i)),
)

-- What `vbuf_putblk` does to a bounded queue: all of a block, or nothing.
abbrev pub Puts : ℕ → List ℕ → List ℕ → Option (Vbuf × List ℕ) → Type 0
Puts room q p none = (length p ≡ 0) ⊎ (room < length p)
Puts room q p (some (v', left)) =
    (0 < length p) × (length p ≤ room) × IsValid v' × (contents v' ≡ q ++ p) × (left ≡ [])

length-zero : (p : List ℕ) → length p ≡ 0 → p ≡ []
length-zero [] e = refl
length-zero (x ∷ p) e = absurd (omega arith)

length-eq_zero : (p : List ℕ) → length p ≤ 0 → p ≡ []
length-eq_zero [] e = refl
length-eq_zero (x ∷ p) e = absurd (omega arith)

-- A round that has room for all of its block leaves nothing.
put_round-room : (v : Vbuf) (p : List ℕ) → length p ≤ head_sz v → (put_round v p).1 ≡ []
unfolding put_round
put_round-room v p h = length-eq_zero _ (
    omega (
      arith,
      length-tabulate (length p - min (head_sz v) (length p))
          (λ i. at p (min (head_sz v) (length p) + i)),
    ))

-- Two rounds append the whole block.
put_twice :
    (v : Vbuf) (p : List ℕ)
    → IsValid v
    → length p ≤ space v
    → let (v1, p1) = put_round v p in
      let (v2, p2) = put_round v1 p1 in IsValid v2 × (contents v2 ≡ contents v ++ p) × (p2 ≡ [])
put_twice v p ok fits =
    let v1 = (put_round v p).0 in
    let p1 = (put_round v p).1 in
    let ok1 = put_round-IsValid v p ok fits in
    let rest = put_round-rest v p ok fits in
    let none_left = put_round-room v1 p1 rest.1 in
    (
      put_round-IsValid v1 p1 ok1 rest.0,
      put_round-all v1 p1 ok1 rest.0 none_left
          ∙ ap (λ q. q ++ p1) (put_round-contents v p ok fits)
          ∙ append_assoc (contents v) (read_at p 0 (copied v p ok fits)) p1
          ∙ ap (λ q. contents v ++ q) (put_round-split v p ok fits),
      none_left,
    )

-- `vbuf_putblk` refuses exactly an empty block and one larger than the free space; else it appends
-- the whole block, its assertion `sz == 0` holds, and the buffer stays valid.
pub putblk_refines :
    (v : Vbuf) (p : List ℕ) → IsValid v → Puts (space v) (contents v) p (putblk v p)
unfolding putblk
putblk_refines v p ok = elim (Bool-cases (length p == 0 || ltb (space v) (length p))) [
  | inl refused ↦ rw refused (ground arith)
  | inr taken ↦ rw taken (
      let fits : length p ≤ space v = ground arith in
      let more : 0 < length p = ground arith in
      elim (Bool-cases (length (put_round v p).1 == 0)) [
        | inl done ↦ rw done (
            let left = length-eq_zero (put_round v p).1 (ground arith) in
            (more, fits, put_round-IsValid v p ok fits, put_round-all v p ok fits left, left))
        | inr again ↦ rw again (let t = put_twice v p ok fits in (more, fits, t.0, t.1, t.2))
      ])
]
