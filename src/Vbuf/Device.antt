-- ===== src/Vbuf/Device.antt =====
-- `vbuf_general_write` and `vbuf_general_read`, whose device function is a parameter.
pub mod Io
pub mod Receive
use brs_bbs.Prelude.{
  ℕ, zero, suc, ◌+◌, ◌-◌, ◌*◌, ◌/◌, ◌%◌, ◌^◌, ◌≤◌, ◌<◌, min, ◌≡◌, refl, sym, ap, ap₂, ◌∙◌, subst,
  ◌≢◌, ◌↔◌, ◌⊎◌, inl, inr, Bool, true, false, not, ◌&&◌, ◌||◌, Option, none, some, List, [], ◌∷◌,
  ◌++◌, append-nil, append_assoc, map, flatten, arith, ltb, leb, ◌==◌, if◌then◌else◌, ltb→lt,
  lt→ltb, leb→le, ==_iff, tests, Bool-cases, Option-cases, List-cases, take-whole, within, length,
  get_elem?, set, length-append, length-set, take, drop, replicate, length-take, length-drop,
  take-append-drop, length-replicate,
}
use brs_bbs.Prelude.Bytes.{at, write_at, read_at}
use brs_bbs.Vbuf.{Vbuf, size, space, tail_sz, head_sz}

-- The three meanings of the argument `sz` of the read and write functions. (A size that is
-- negative, other than -1, makes them return 0 at once, as a size past what is there does.)
pub data Amount : Type 0 where
  all least : Amount
  bytes : ℕ → Amount

abbrev pub amount : Amount → ℕ → ℕ
amount all n = n
amount least n = n
amount (bytes k) n = k

abbrev pub is_least : Amount → Bool
is_least least = true
is_least _ = false

-- `-1`, or a count
pub data Count : Type 0 where
  failed : Count
  counted : ℕ → Count

-- What a call of a read or write function leaves: its result, the buffer, the device.
abbrev pub Done : Type 0 → Type 0
Done S = Count × Vbuf × S

abbrev pub or_failed : ℕ → Count
or_failed copied = if ltb 0 copied then counted copied else failed

-- `v->head += rw; … if (v->head >= v->buf_end) v->head -= v->buf_end - v->buf;`
abbrev pub advance_head : Vbuf → ℕ → Vbuf
advance_head v n =
    let h = v.head + n in record v { head = if leb v.buf_end h then h - v.buf_end else h }

abbrev pub advance_tail : Vbuf → ℕ → Vbuf
advance_tail v n =
    let t = v.tail + n in record v { tail = if leb v.buf_end t then t - v.buf_end else t }

-- What `readv` leaves: the bytes `p` stored in the two pieces of `rw` and more bytes, and the tail
-- moved behind them.
abbrev pub received : Vbuf → ℕ → List ℕ → Vbuf
received v rw p =
    let n = length p in
    let first = write_at v.buf v.tail (read_at p 0 (min rw n)) in
    advance_tail (record v { buf = write_at first 0 (read_at p rw (n - rw)) }) n

module _ {S : Type 0} where
  -- The `do … while` of `vbuf_general_write`, on fuel. The writer is given the two pieces and
  -- returns the number of bytes that it took, or `none` for a negative result.
  pub write_loop :
      (S → List ℕ → List ℕ → Option ℕ × S) → ℕ → Vbuf → ℕ → ℕ → Bool → S → Option (Done S)
  write_loop writer zero v sz copied is_min ctx = none
  write_loop writer (suc fuel) v sz copied is_min ctx =
      let rw = min (tail_sz v) sz in
      let r = writer ctx (read_at v.buf v.head rw) (read_at v.buf 0 (sz - rw)) in
      elim r.0 [
        | none ↦ some (or_failed copied, v, r.1)
        | some n ↦
            let v' = advance_head v n in
            let rest = write_loop writer fuel v' (sz - n) copied is_min r.1 in
            if ltb 0 (sz - n) && not is_min then rest else some (counted copied, v', r.1)
      ]

  pub general_write : (S → List ℕ → List ℕ → Option ℕ × S) → ℕ → Vbuf → Amount → S → Option (Done S)
  general_write writer fuel v sz ctx =
      let n = amount sz (size v) in
      let run = write_loop writer fuel v n 0 (is_least sz) ctx in
      if ltb n 1 || ltb (size v) n then some (counted 0, v, ctx) else run

  -- The reader is given the room in the two pieces and returns the bytes that it stored there in
  -- order, or `none` for a negative result.
  pub read_loop : (S → ℕ → ℕ → Option (List ℕ) × S) → ℕ → Vbuf → ℕ → ℕ → Bool → S → Option (Done S)
  read_loop reader zero v sz copied is_min ctx = none
  read_loop reader (suc fuel) v sz copied is_min ctx =
      let rw = min (head_sz v) sz in
      let r = reader ctx rw (sz - rw) in
      elim r.0 [
        | none ↦ some (or_failed copied, v, r.1)
        | some p ↦
            let n = length p in
            let v' = received v rw p in
            let rest = read_loop reader fuel v' (sz - n) copied is_min r.1 in
            if ltb 0 (sz - n) && not is_min then rest else some (counted copied, v', r.1)
      ]

  pub general_read : (S → ℕ → ℕ → Option (List ℕ) × S) → ℕ → Vbuf → Amount → S → Option (Done S)
  general_read reader fuel v sz ctx =
      let n = amount sz (space v) in
      let run = read_loop reader fuel v n 0 (is_least sz) ctx in
      if ltb n 1 || ltb (space v) n then some (counted 0, v, ctx) else run
