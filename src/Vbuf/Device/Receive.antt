-- ===== src/Vbuf/Device/Receive.antt =====
-- `vbuf_general_read`: the bytes that the device delivers are appended to the queue, in order.
use brs_bbs.Prelude.{
  ℕ, zero, suc, ◌+◌, ◌-◌, ◌≤◌, ◌<◌, min, ◌≡◌, refl, sym, ap, ◌∙◌, ◌≢◌, ◌⊎◌, inl, inr, Bool, not,
  ◌&&◌, ◌||◌, Option, none, some, List, [], ◌∷◌, ◌++◌, append-nil, append_assoc, arith, ltb, leb,
  if◌then◌else◌, Bool-cases, Option-cases, length, length-append,
}
use brs_bbs.Prelude.Bytes.{
  at, write_at, read_at, length-tabulate, at-tabulate, at-append, at-write_at, length-write_at,
}
use brs_bbs.Vbuf.{Vbuf, size, space, head_sz}
use brs_bbs.Vbuf.Device.{
  Amount, amount, is_least, failed, counted, Done, or_failed, received, read_loop, general_read,
}
use brs_bbs.Vbuf.Contents.{IsValid, slot, contents, length-contents, at-contents, contents-eq}

-- The storage behind `readv`, cell by cell: `rw` is the room up to the end of the storage.
at-stored :
    (v : Vbuf) (rw_ : ℕ) (p : List ℕ) (j : ℕ)
    → j < length v.buf
    → at (received v rw_ p).buf j ≡ (
        if ltb j (length p - rw_)
        then at p (rw_ + j)
        else if leb v.tail j && ltb j (v.tail + min rw_ (length p))
        then at p (j - v.tail)
        else at v.buf j)
at-stored v rw_ p j h =
    let a = read_at p 0 (min rw_ (length p)) in
    let b = read_at p rw_ (length p - rw_) in
    ground (
      arith,
      at-write_at (write_at v.buf v.tail a) 0 b j,
      at-write_at v.buf v.tail a j,
      length-write_at v.buf v.tail a,
      length-tabulate (min rw_ (length p)) (λ i. at p (0 + i)),
      length-tabulate (length p - rw_) (λ i. at p (rw_ + i)),
      at-tabulate (min rw_ (length p)) (λ i. at p (0 + i)) (j - v.tail),
      at-tabulate (length p - rw_) (λ i. at p (rw_ + i)) j,
    )

-- Which of the two pieces a byte of `p` went to.
abbrev picked : List ℕ → List ℕ → ℕ → ℕ → ℕ → ℕ
picked p buf j t r =
    if ltb j (length p - r)
    then at p (r + j)
    else if leb t j && ltb j (t + min r (length p))
    then at p (j - t)
    else at buf j

pick_near :
    (p buf : List ℕ) (j t r k : ℕ)
    → k < length p
    → k < r
    → j ≡ t + k
    → length p - r ≤ j
    → picked p buf j t r ≡ at p k
pick_near p buf j t r k l near e above = ground arith

pick_past :
    (p buf : List ℕ) (j t r k : ℕ) → k < length p → r ≤ k → j + r ≡ k → picked p buf j t r ≡ at p k
pick_past p buf j t r k l past e = ground arith

module _ (v : Vbuf) (sz : ℕ) (p : List ℕ) (ok : IsValid v) (room : sz ≤ space v)
    (fits : length p ≤ sz) where
  received-IsValid : IsValid (received v (min (head_sz v) sz) p)
  received-IsValid = ground (
    arith,
    length-write_at v.buf v.tail (read_at p 0 (min (min (head_sz v) sz) (length p))),
    length-write_at (write_at v.buf v.tail (read_at p 0 (min (min (head_sz v) sz) (length p)))) 0
        (read_at p (min (head_sz v) sz) (length p - min (head_sz v) sz)),
  )

  size-received : size (received v (min (head_sz v) sz) p) ≡ size v + length p
  size-received = ground arith

  slot_old :
      (i : ℕ)
      → i < size v
      → (length p - min (head_sz v) sz ≤ slot v i)
        × ((slot v i < v.tail) ⊎ (v.tail + min (min (head_sz v) sz) (length p) ≤ slot v i))
        × (slot v i < length v.buf)
  slot_old i l = ground arith

  at-received_old :
      (i : ℕ)
      → i < size v
      → at (received v (min (head_sz v) sz) p).buf (slot v i) ≡ at v.buf (slot v i)
  at-received_old i l =
      let far = slot_old i l in ground (arith, at-stored v (min (head_sz v) sz) p (slot v i))

  slot_new :
      (k : ℕ)
      → k < length p
      → (slot v (size v + k) < length v.buf)
        × (((k < min (head_sz v) sz)
              × (slot v (size v + k) ≡ v.tail + k)
              × (length p - min (head_sz v) sz ≤ slot v (size v + k)))
            ⊎ ((min (head_sz v) sz ≤ k) × (slot v (size v + k) + min (head_sz v) sz ≡ k)))
  slot_new k l = ground arith

  at-received_new :
      (k : ℕ)
      → k < length p
      → at (received v (min (head_sz v) sz) p).buf (slot v (size v + k)) ≡ at p k
  at-received_new k l =
      let place = slot_new k l in
      at-stored v (min (head_sz v) sz) p (slot v (size v + k)) place.0 ∙ elim place.1 [
        | inl (near, e, above) ↦ pick_near p v.buf _ v.tail _ k l near e above
        | inr (past, e) ↦ pick_past p v.buf _ v.tail _ k l past e
      ]

  at-received :
      (i : ℕ)
      → i < size v + length p
      → at (received v (min (head_sz v) sz) p).buf (slot v i) ≡ at (contents v ++ p) i
  at-received i l = elim (Bool-cases (ltb i (size v))) [
    | inl old ↦
        ground
          (arith, at-received_old i, at-append (contents v) p i, length-contents v, at-contents v i)
    | inr new ↦
        let k = i - size v in
        let e : size v + k ≡ i = ground arith in
        let cell = at-received_new k (ground arith) in
        rw e at cell ∙ ground (arith, at-append (contents v) p i, length-contents v)
  ]

  contents-received : contents (received v (min (head_sz v) sz) p) ≡ contents v ++ p
  contents-received =
      contents-eq _ _
        (omega (arith, size-received, length-append (contents v) p, length-contents v))
        (λ i l. at-received i (omega (arith, size-received)))

-- What a reader is relied on for: it delivers at most what there is room for, and nothing if it
-- fails. `got` is what has come in.
pub record ReaderLaws {S : Type 0} (reader : S → ℕ → ℕ → Option (List ℕ) × S) (got : S → List ℕ)
    : Type 0 where
  pub fits_room : (ctx : S) (a b : ℕ) (p : List ℕ) → (reader ctx a b).0 ≡ some p → length p ≤ a + b
  pub delivers :
      (ctx : S) (a b : ℕ) (p : List ℕ)
      → (reader ctx a b).0 ≡ some p
      → got (reader ctx a b).1 ≡ got ctx ++ p
  pub fails : (ctx : S) (a b : ℕ) → (reader ctx a b).0 ≡ none → got (reader ctx a b).1 ≡ got ctx

-- A reader that never answers "try again": each call delivers a byte or fails.
abbrev pub Delivers : {S : Type 0} → (S → ℕ → ℕ → Option (List ℕ) × S) → Type 0
Delivers {S} reader = (ctx : S) (a b : ℕ) → (reader ctx a b).0 ≢ some []

-- The call returned; the buffer is valid, and what has come in since is appended to the queue.
-- The result is 0 or -1: no count of bytes.
abbrev pub Receives : {S : Type 0} → (S → List ℕ) → S → Vbuf → Option (Done S) → Type 0
Receives got ctx v none = ⊥
Receives got ctx v (some (r, v', ctx')) =
    ((new : List ℕ) × (got ctx' ≡ got ctx ++ new) × (contents v' ≡ contents v ++ new))
    × IsValid v'
    × ((r ≡ counted 0) ⊎ (r ≡ failed))

module _ {S : Type 0} (reader : S → ℕ → ℕ → Option (List ℕ) × S) (got : S → List ℕ)
    (laws : ReaderLaws reader got) (progress : Delivers reader) where
  call : Vbuf → ℕ → S → Option (List ℕ) × S
  call v sz ctx = reader ctx (min (head_sz v) sz) (sz - min (head_sz v) sz)

  call-le : (v : Vbuf) (sz : ℕ) (p : List ℕ) (ctx : S) → (call v sz ctx).0 ≡ some p → length p ≤ sz
  unfolding call
  call-le v sz p ctx e = omega (arith, laws.fits_room ctx _ _ p e)

  call-pos : (v : Vbuf) (sz : ℕ) (p : List ℕ) (ctx : S) → (call v sz ctx).0 ≡ some p → 0 < length p
  unfolding call
  call-pos v sz [] ctx e = absurd (progress ctx _ _ e)
  call-pos v sz (x ∷ p) ctx e = omega arith

  Receives-trans :
      (ctx ctx' : S) (v v' : Vbuf) (p : List ℕ) (r : Option (Done S))
      → got ctx' ≡ got ctx ++ p
      → contents v' ≡ contents v ++ p
      → Receives got ctx' v' r
      → Receives got ctx v r
  Receives-trans ctx ctx' v v' p none e q h = h
  Receives-trans ctx ctx' v v' p (some (r, v2, ctx2)) e q ((new, g, c), ok, res) = (
    (
      p ++ new,
      g ∙ ap (λ l. l ++ new) e ∙ append_assoc (got ctx) p new,
      c ∙ ap (λ l. l ++ new) q ∙ append_assoc (contents v) p new,
    ),
    ok,
    res,
  )

  read_loop-none :
      (fuel : ℕ) (v : Vbuf) (sz copied : ℕ) (is_min : Bool) (ctx : S)
      → (call v sz ctx).0 ≡ none
      → read_loop reader (suc fuel) v sz copied is_min ctx
        ≡ some (or_failed copied, v, (call v sz ctx).1)
  unfolding read_loop call
  read_loop-none fuel v sz copied is_min ctx e = rw (e, read_loop)

  read_loop-some :
      (fuel : ℕ) (v : Vbuf) (sz copied : ℕ) (is_min : Bool) (ctx : S) (p : List ℕ)
      → (call v sz ctx).0 ≡ some p
      → let v' = received v (min (head_sz v) sz) p in
        read_loop reader (suc fuel) v sz copied is_min ctx ≡ (
          if ltb 0 (sz - length p) && not is_min
          then read_loop reader fuel v' (sz - length p) copied is_min (call v sz ctx).1
          else some (counted copied, v', (call v sz ctx).1))
  unfolding read_loop call
  read_loop-some fuel v sz copied is_min ctx p e = rw (e, read_loop)

  read_loop-Receives :
      (fuel : ℕ) (v : Vbuf) (sz : ℕ) (is_min : Bool) (ctx : S)
      → IsValid v
      → 0 < sz
      → sz ≤ space v
      → sz ≤ fuel
      → Receives got ctx v (read_loop reader fuel v sz 0 is_min ctx)
  read_loop-Receives zero v sz is_min ctx ok p h f = absurd (omega arith)
  read_loop-Receives (suc fuel) v sz is_min ctx ok pos h f = elim (Option-cases (call v sz ctx).0) [
    | inl e ↦ rw (read_loop-none fuel v sz 0 is_min ctx e) (
      (
        [],
        unfold call in
            laws.fails ctx (min (head_sz v) sz) (sz - min (head_sz v) sz) e
            ∙ sym (append-nil (got ctx)),
        sym (append-nil (contents v)),
      ),
      ok,
      inr refl,
    )
    | inr (p, e) ↦
        let k = call-le v sz p ctx e in
        let m = call-pos v sz p ctx e in
        let v' = received v (min (head_sz v) sz) p in
        let came : got (call v sz ctx).1 ≡ got ctx ++ p =
          unfold call in laws.delivers ctx (min (head_sz v) sz) (sz - min (head_sz v) sz) p e in
        let held = contents-received v sz p ok h k in
        let ok' = received-IsValid v sz p ok h k in
        let grown = size-received v sz p ok h k in
        rw (read_loop-some fuel v sz 0 is_min ctx p e)
          (elim (Bool-cases (ltb 0 (sz - length p) && not is_min)) [
            | inl again ↦ rw again (
                Receives-trans ctx (call v sz ctx).1 v v' p _ came held (
                  read_loop-Receives fuel v' (sz - length p) is_min (call v sz ctx).1 ok'
                    (ground arith) (omega (arith, grown)) (omega arith)))
            | inr stop ↦ rw stop ((p, came, held), ok', inl refl)
          ])
  ]

  -- With fuel for the free space, `vbuf_general_read` returns, for every amount; the buffer stays
  -- valid, and exactly the bytes that the device delivered meanwhile are appended to it, in order.
  -- The result is 0 or -1, never the number of bytes read.
  pub general_read-Receives :
      (v : Vbuf) (sz : Amount) (ctx : S)
      → IsValid v
      → Receives got ctx v (general_read reader (space v) v sz ctx)
  unfolding general_read
  general_read-Receives v sz ctx ok =
      elim (Bool-cases (ltb (amount sz (space v)) 1 || ltb (space v) (amount sz (space v)))) [
        | inl idle ↦
            rw idle (([], sym (append-nil (got ctx)), sym (append-nil (contents v))), ok, inl refl)
        | inr busy ↦ rw busy (
            read_loop-Receives (space v) v (amount sz (space v)) (is_least sz) ctx ok (ground arith)
              (ground arith) (ground arith))
      ]
