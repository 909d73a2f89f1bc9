-- ===== src/Vbuf/Getblk.antt =====
-- `vbuf_getblk` on the queue.
use brs_bbs.Prelude.{
  ℕ, ◌+◌, ◌-◌, ◌≤◌, ◌<◌, min, ◌≡◌, refl, sym, ap, ◌∙◌, ◌⊎◌, inl, inr, ◌||◌, Option, none, some,
  List, ◌++◌, append_assoc, arith, ltb, ◌==◌, ==_iff, Bool-cases, length, length-append,
}
use brs_bbs.Prelude.Bytes.{at, length-tabulate, at-tabulate, at-append}
use brs_bbs.Vbuf.{Vbuf, size, tail_sz, get_round, getblk}
use brs_bbs.Vbuf.Contents.{IsValid, contents, length-contents, at-contents, contents-eq}

module _ (v : Vbuf) (sz : ℕ) (ok : IsValid v) (held : sz ≤ size v) where
  taken : ℕ
  taken = min (tail_sz v) sz

  get_round-IsValid : IsValid (get_round v sz).1
  unfolding get_round
  get_round-IsValid = ground arith

  size-get_round : size (get_round v sz).1 + taken ≡ size v
  unfolding get_round taken
  size-get_round = ground arith

  length-get_round : length (get_round v sz).0 ≡ taken
  unfolding get_round taken
  length-get_round = length-tabulate (min (tail_sz v) sz) _

  -- Behind the first round, what is left is held in one piece.
  get_round-rest :
      let (s, v1, sz1) = get_round v sz in (sz1 ≤ size v1) × (sz1 ≤ tail_sz v1) × (sz1 + taken ≡ sz)
  unfolding get_round taken
  get_round-rest = ground arith

  get_round-contents : contents v ≡ (get_round v sz).0 ++ contents (get_round v sz).1
  unfolding get_round taken
  get_round-contents =
      contents-eq v _
        (omega (
          arith,
          length-append (get_round v sz).0 (contents (get_round v sz).1),
          length-get_round,
          length-contents (get_round v sz).1,
          size-get_round,
        ))
        (λ i l. ground (
          arith,
          at-append (get_round v sz).0 (contents (get_round v sz).1) i,
          at-tabulate (min (tail_sz v) sz) (λ i. at v.buf (v.head + i)) i,
          at-contents (get_round v sz).1 (i - taken),
          length-get_round,
          size-get_round,
        ))

get_round-all : (v : Vbuf) (sz : ℕ) → sz ≤ tail_sz v → (get_round v sz).2 ≡ 0
unfolding get_round
get_round-all v sz h = omega arith

-- What `vbuf_getblk` does to a queue: all that is asked for, or nothing.
abbrev pub Gets : List ℕ → ℕ → Option (List ℕ × Vbuf × ℕ) → Type 0
Gets q sz none = (sz ≡ 0) ⊎ (length q < sz)
Gets q sz (some (s, v', left)) =
    (0 < sz) × (length s ≡ sz) × IsValid v' × (q ≡ s ++ contents v') × (left ≡ 0)

get_twice :
    (v : Vbuf) (sz : ℕ)
    → IsValid v
    → sz ≤ size v
    → let (s, v1, sz1) = get_round v sz in
      let (s', v2, sz2) = get_round v1 sz1 in
      (length (s ++ s') ≡ sz) × IsValid v2 × (contents v ≡ (s ++ s') ++ contents v2) × (sz2 ≡ 0)
get_twice v sz ok held =
    let v1 = (get_round v sz).1 in
    let sz1 = (get_round v sz).2 in
    let ok1 = get_round-IsValid v sz ok held in
    let rest = get_round-rest v sz ok held in
    let whole = get_round-rest v1 sz1 ok1 rest.0 in
    let none_left = get_round-all v1 sz1 rest.1 in
    (
      omega (
        arith,
        length-append (get_round v sz).0 (get_round v1 sz1).0,
        length-get_round v sz ok held,
        length-get_round v1 sz1 ok1 rest.0,
        rest.2,
        whole.2,
        none_left,
      ),
      get_round-IsValid v1 sz1 ok1 rest.0,
      get_round-contents v sz ok held
          ∙ ap (λ q. (get_round v sz).0 ++ q) (get_round-contents v1 sz1 ok1 rest.0)
          ∙ sym (append_assoc (get_round v sz).0 (get_round v1 sz1).0 _),
      none_left,
    )

got_all :
    (v : Vbuf) (sz : ℕ)
    → IsValid v
    → sz ≤ size v
    → (get_round v sz).2 ≡ 0
    → length (get_round v sz).0 ≡ sz
got_all v sz ok held e =
    omega (arith, length-get_round v sz ok held, get_round-rest v sz ok held, e)

-- `vbuf_getblk` refuses exactly an empty request and one for more than is held; else it takes the
-- `sz` oldest bytes off the queue, its assertion `sz == 0` holds, and the buffer stays valid.
pub getblk_refines : (v : Vbuf) (sz : ℕ) → IsValid v → Gets (contents v) sz (getblk v sz)
unfolding getblk
getblk_refines v sz ok = elim (Bool-cases (sz == 0 || ltb (size v) sz)) [
  | inl refused ↦ rw refused (ground (arith, length-contents v))
  | inr some_left ↦ rw some_left (
      let held : sz ≤ size v = ground arith in
      let more : 0 < sz = ground arith in
      elim (Bool-cases ((get_round v sz).2 == 0)) [
        | inl done ↦ rw done (
          more,
          got_all v sz ok held ((==_iff _ _).0 done),
          get_round-IsValid v sz ok held,
          get_round-contents v sz ok held,
          refl,
        )
        | inr again ↦ rw again (let t = get_twice v sz ok held in (more, t.0, t.1, t.2, t.3))
      ])
]
