-- ===== src/Vbuf.antt =====
-- common/sys/vbuf.c and the VBUF macros of include/cmsys.h: a ring buffer of bytes that keeps one
-- byte of its storage free. A pointer is the offset from `v->buf`; a NULL buffer has no storage.
pub mod Contents
pub mod Single
pub mod Putblk
pub mod Getblk
pub mod Search
pub mod Text
pub mod Cstr
pub mod Getstr
pub mod Device
mod Tests
use brs_bbs.Prelude.{
  ℕ, zero, suc, ◌+◌, ◌-◌, ◌*◌, ◌/◌, ◌%◌, ◌^◌, ◌≤◌, ◌<◌, min, ◌≡◌, refl, sym, ap, ap₂, ◌∙◌, subst,
  ◌≢◌, ◌↔◌, ◌⊎◌, inl, inr, Bool, true, false, not, ◌&&◌, ◌||◌, Option, none, some, List, [], ◌∷◌,
  ◌++◌, append-nil, append_assoc, map, flatten, arith, ltb, leb, ◌==◌, if◌then◌else◌, ltb→lt,
  lt→ltb, leb→le, ==_iff, tests, Bool-cases, Option-cases, List-cases, ◌>>=◌, take-whole,
  drop-whole, take-append_le, take-append_past, drop-append_past, drop-drop, take-take,
  drop-append_le, drop-take, within, length, get_elem?, set, length-append, length-set, take, drop,
  replicate, length-take, length-drop, take-append-drop, length-replicate,
}
use brs_bbs.Prelude.Bytes.{at, write_at, read_at, tabulate}

pub record Vbuf : Type 0 where
  pub buf : List ℕ
  pub buf_end : ℕ
  pub capacity : ℕ
  pub head : ℕ
  pub tail : ℕ

abbrev pub is_empty : Vbuf → Bool
is_empty v = v.head == v.tail

abbrev pub size : Vbuf → ℕ
size v = if leb v.head v.tail then v.tail - v.head else v.buf_end - v.head + v.tail

abbrev pub space : Vbuf → ℕ
space v = v.capacity - size v

abbrev pub is_full : Vbuf → Bool
is_full v = space v == 0

-- `none` is EOF.
abbrev pub peek : Vbuf → Option ℕ
peek v = if is_empty v then none else some (at v.buf v.head)

-- `vbuf_attach`; and `vbuf_new`, whose storage comes from `malloc`. The assertion is `1 < szbuf`.
pub attach : List ℕ → ℕ → Vbuf
attach storage szbuf = record {
  buf = storage;
  buf_end = szbuf;
  capacity = szbuf - 1;
  head = 0;
  tail = 0;
}

-- `vbuf_delete` and `vbuf_detach`: `memset(v, 0, sizeof(*v))`
pub detach : Vbuf → Vbuf
detach v = record { buf = []; buf_end = 0; capacity = 0; head = 0; tail = 0 }

pub clear : Vbuf → Vbuf
clear v = record v { head = 0; tail = 0 }

pub peekat : Vbuf → ℕ → Option ℕ
peekat v i =
    let s = v.head + i in
    let s' = if leb v.buf_end s then s - v.buf_end else s in
    if is_empty v || leb v.capacity i
    then none
    else if ltb s v.tail
    then some (at v.buf s)
    else if ltb s' v.tail
    then some (at v.buf s')
    else none

-- `++v->head == v->buf_end`, and the wrap
abbrev next : Vbuf → ℕ → ℕ
next v p = if p + 1 == v.buf_end then 0 else p + 1

-- the buffer behind a successful pop
abbrev pub popped : Vbuf → Vbuf
popped v = record v { head = next v v.head }

pub pop : Vbuf → Option ℕ × Vbuf
pop v = if is_empty v then (none, v) else (peek v, popped v)

pub popn : Vbuf → ℕ → Vbuf
popn v n =
    let h = v.head + n in
    let h' = h - v.buf_end in
    if ltb h v.buf_end
    then record v { head = h }
    else if ltb v.tail h'
    then record v { head = v.tail }
    else record v { head = h' }

-- the buffer behind a successful add
abbrev pub added : Vbuf → ℕ → Vbuf
added v c = record v { buf = set v.buf v.tail c; tail = next v v.tail }

pub add : Vbuf → ℕ → Bool × Vbuf
add v c = if is_full v then (false, v) else (true, added v c)

-- `while (s < d) if (*s++ == c) …`, over `n` bytes from offset `s` on: the offset of the first `c`
pub scan : List ℕ → ℕ → ℕ → ℕ → Option ℕ
scan buf s zero c = none
scan buf s (suc n) c = if at buf s == c then some s else scan buf (s + 1) n c

-- `none` is EOF.
pub strchr : Vbuf → ℕ → Option ℕ
strchr v c =
    let d = if ltb v.tail v.head then v.buf_end else v.tail in
    let first = scan v.buf v.head (d - v.head) c in
    let second = scan v.buf 0 v.tail c in
    if is_empty v then none else elim first [
      | some s ↦ some (s - v.head)
      | none ↦
          if ltb v.head v.tail
          then none
          else elim second [ some s ↦ some (v.buf_end - v.head + s) | none ↦ none ]
    ]

-- the padding behind the loop: `s[sz == 0 ? 0 : -1] = '\0'`, where `s` stands behind `out`
pub pad : ℕ → List ℕ → List ℕ
pad sz out = if sz == 0 then out ++ (0 ∷ []) else set out (length out - 1) 0

-- `while (sz-- > 0 && !vbuf_is_empty(v))`. Of the last test `sz` comes out decremented, also from 0.
pub getstr_loop : ℕ → Vbuf → List ℕ → List ℕ × Vbuf
getstr_loop zero v out = (pad (2 ^ 64 - 1) out, v)
getstr_loop (suc sz) v out =
    let (c, v') = pop v in
    let rest = λ (c : ℕ). getstr_loop sz v' (out ++ (c ∷ [])) in
    elim c [
      | none ↦ (pad sz out, v)
      | some c ↦ let r = rest c in if c == 0 then (out ++ (c ∷ []), v') else r
    ]

-- `none` is the assertion that fails, and `some none` is NULL; else what is stored at `s`, its NUL
-- included.
pub getstr : Vbuf → ℕ → Option (Option (List ℕ × Vbuf))
getstr v zero = none
getstr v (suc n) = if is_empty v then some none else some (some (getstr_loop (suc n) v []))

-- `VBUF_TAIL_SZ` and `VBUF_HEAD_SZ`
abbrev pub tail_sz : Vbuf → ℕ
tail_sz v = if leb v.head v.tail then v.tail - v.head else v.buf_end - v.head

abbrev pub head_sz : Vbuf → ℕ
head_sz v = if ltb v.tail v.head then v.head - v.tail else v.buf_end - v.tail

-- one round of the loop of `vbuf_getblk`: what it copies, the buffer, and what is left of `sz`
pub get_round : Vbuf → ℕ → List ℕ × Vbuf × ℕ
get_round v sz =
    let rw = min (tail_sz v) sz in
    let h = v.head + rw in
    (read_at v.buf v.head rw, record v { head = if h == v.buf_end then 0 else h }, sz - rw)

-- `for (i = 0; sz && i < 2; i++)`; the last part is what is left of `sz`, 0 by the assertion.
pub getblk : Vbuf → ℕ → Option (List ℕ × Vbuf × ℕ)
getblk v sz =
    let (s, v1, sz1) = get_round v sz in
    let (s', v2, sz2) = get_round v1 sz1 in
    if sz == 0 || ltb (size v) sz
    then none
    else if sz1 == 0
    then some (s, v1, 0)
    else some (s ++ s', v2, sz2)

-- one round of the loop of `vbuf_putblk`: the buffer, and what is left of the block
pub put_round : Vbuf → List ℕ → Vbuf × List ℕ
put_round v p =
    let rw = min (head_sz v) (length p) in
    let t = v.tail + rw in
    (
      record v {
        buf = write_at v.buf v.tail (read_at p 0 rw);
        tail = if t == v.buf_end then 0 else t;
      },
      read_at p rw (length p - rw),
    )

-- The second part is what is left of the block, none of it by the assertion.
pub putblk : Vbuf → List ℕ → Option (Vbuf × List ℕ)
putblk v p =
    let (v1, p1) = put_round v p in
    let (v2, p2) = put_round v1 p1 in
    if length p == 0 || ltb (space v) (length p)
    then none
    else if length p1 == 0
    then some (v1, p1)
    else some (v2, p2)

-- `s` without its NUL, which is put too
pub putstr : Vbuf → List ℕ → Bool × Vbuf
putstr v s =
    let block = s ++ (0 ∷ []) in
    let put = putblk v block in
    if ltb (space v) (length s + 1)
    then (false, v)
    else elim put [ some (v', p) ↦ (true, v') | none ↦ (true, v) ]

-- `while (begin < end)`, on fuel: the distance shrinks by two
pub reverse_loop : ℕ → List ℕ → ℕ → ℕ → List ℕ
reverse_loop zero buf b e = buf
reverse_loop (suc fuel) buf b e =
    let e' = e - 1 in
    let rest = reverse_loop fuel (set (set buf e' (at buf b)) b (at buf e')) (b + 1) e' in
    if ltb b e then rest else buf

-- `vbuf_reverse(buf + b, buf + e)`
pub reverse_range : List ℕ → ℕ → ℕ → List ℕ
unfolding reverse_loop
reverse_range buf b e = reverse_loop (e - b) buf b e

-- The offset of the string that is returned, and the buffer; `none` is NULL.
pub cstr : Vbuf → Option (ℕ × Vbuf)
cstr v =
    let sz = size v in
    let b1 = reverse_range v.buf 0 v.tail in
    let b2 = reverse_range b1 v.head v.buf_end in
    let b3 = write_at b2 v.tail (read_at b2 v.head (v.buf_end - v.head)) in
    let b4 = set b3 sz 0 in
    if is_empty v
    then none
    else if ltb v.head v.tail
    then some (v.head, record v { buf = set v.buf v.tail 0 })
    else some (0, record v { buf = reverse_range b4 0 sz; head = 0; tail = sz })
