-- ===== src/Vbuf/Text.antt =====
-- Strings in the buffer: `vbuf_putstr`, `vbuf_getstr` and `vbuf_cstr`.
use brs_bbs.Prelude.{
  ℕ, zero, suc, ◌+◌, ◌-◌, ◌≤◌, ◌<◌, ◌≡◌, refl, inl, inr, ◌&&◌, Option, none, some, List, [], ◌∷◌,
  ◌++◌, arith, ltb, leb, if◌then◌else◌, Bool-cases, length, set, length-append, length-set,
}
use brs_bbs.Prelude.Bytes.{at, at-set}
use brs_bbs.Vbuf.{Vbuf, space, putblk, putstr, reverse_loop, reverse_range}
use brs_bbs.Vbuf.Contents.{IsValid, contents}
use brs_bbs.Vbuf.Putblk.{Puts, putblk_refines}

putstr-taken :
    (v : Vbuf) (s : List ℕ) (r : Option (Vbuf × List ℕ))
    → length s + 1 ≤ space v
    → Puts (space v) (contents v) (s ++ (0 ∷ [])) r
    → (v' : Vbuf) × (left : List ℕ) × (r ≡ some (v', left))
      × IsValid v'
      × (contents v' ≡ contents v ++ (s ++ (0 ∷ [])))
putstr-taken v s none room h = absurd (ground (arith, length-append s (0 ∷ [])))
putstr-taken v s (some (v', left)) room h = (v', left, refl, h.2, h.3)

-- `vbuf_putstr` returns 1 and appends the string with its NUL exactly if there is room for both;
-- else it returns 0 and changes nothing. The buffer stays valid.
pub putstr_refines :
    (v : Vbuf) (s : List ℕ)
    → IsValid v
    → let fits = leb (length s + 1) (space v) in
      IsValid (putstr v s).1
      × ((putstr v s).0 ≡ fits)
      × (contents (putstr v s).1 ≡ (if fits then contents v ++ (s ++ (0 ∷ [])) else contents v))
unfolding putstr
putstr_refines v s ok = elim (Bool-cases (ltb (space v) (length s + 1))) [
  | inl full ↦ ground arith
  | inr room ↦
      let (v', left, e, valid, q) =
        putstr-taken v s (putblk v (s ++ (0 ∷ []))) (ground arith) (putblk_refines v _ ok) in
      ground arith
]

-- Reversing a range mirrors its places and leaves the others alone.
reverse_loop-lem :
    (fuel : ℕ) (buf : List ℕ) (b e i : ℕ)
    → e ≤ length buf
    → e ≤ b + fuel
    → i < length buf
    → at (reverse_loop fuel buf b e) i
      ≡ (if leb b i && ltb i e then at buf (b + e - 1 - i) else at buf i)
unfolding reverse_loop
reverse_loop-lem zero buf b e i h f l = ground arith
reverse_loop-lem (suc fuel) buf b e i h f l =
    let buf1 = set buf (e - 1) (at buf b) in
    let buf2 = set buf1 b (at buf (e - 1)) in
    ground (
      arith,
      reverse_loop-lem fuel buf2 (b + 1) (e - 1) i,
      length-set buf (e - 1) (at buf b),
      length-set buf1 b (at buf (e - 1)),
      at-set buf (e - 1) (at buf b) i,
      at-set buf1 b (at buf (e - 1)) i,
      at-set buf (e - 1) (at buf b) (b + e - 1 - i),
      at-set buf1 b (at buf (e - 1)) (b + e - 1 - i),
    )

length-reverse_loop :
    (fuel : ℕ) (buf : List ℕ) (b e : ℕ) → length (reverse_loop fuel buf b e) ≡ length buf
unfolding reverse_loop
length-reverse_loop zero buf b e = refl
length-reverse_loop (suc fuel) buf b e =
    let buf1 = set buf (e - 1) (at buf b) in
    let buf2 = set buf1 b (at buf (e - 1)) in
    ground (
      arith,
      length-reverse_loop fuel buf2 (b + 1) (e - 1),
      length-set buf (e - 1) (at buf b),
      length-set buf1 b (at buf (e - 1)),
    )

pub at-reverse_range :
    (buf : List ℕ) (b e i : ℕ)
    → e ≤ length buf
    → i < length buf
    → at (reverse_range buf b e) i
      ≡ (if leb b i && ltb i e then at buf (b + e - 1 - i) else at buf i)
unfolding reverse_range
at-reverse_range buf b e i h l = reverse_loop-lem (e - b) buf b e i h (omega arith) l

pub length-reverse_range : (buf : List ℕ) (b e : ℕ) → length (reverse_range buf b e) ≡ length buf
unfolding reverse_range
length-reverse_range buf b e = length-reverse_loop (e - b) buf b e
