-- ===== src/Records/Copy.antt =====
-- The loop that moves the end of a file to the front, through a buffer of 512 bytes.
use brs_bbs.Prelude.{
  ℕ, zero, suc, ◌+◌, ◌-◌, ◌≤◌, ◌<◌, min, ◌≡◌, refl, sym, ap, ap₂, ◌∙◌, inl, inr, true, false, ◌||◌,
  Option, some, List, [], ◌∷◌, ◌++◌, append-nil, append_assoc, arith, ◌==◌, Bool-cases, take-whole,
  drop-whole, take-append_le, take-append_past, drop-append_past, drop-drop, length, length-append,
  take, drop, length-take, length-drop, take-append-drop,
}
use brs_bbs.Records.{write_over, read_from, bufsize, copy_loop}

pub write_over-inside :
    (bs : List ℕ) (o : ℕ) (c : List ℕ)
    → o ≤ length bs
    → write_over bs o c ≡ take o bs ++ (c ++ drop (o + length c) bs)
write_over-inside bs o c h =
    let none_between : o - length bs ≡ 0 = omega arith in rw none_between refl

pub length-write_over_at :
    (bs : List ℕ) (o : ℕ) (c : List ℕ)
    → o ≤ length bs
    → length (write_over bs o c) ≡ o + length c + (length bs - (o + length c))
length-write_over_at bs o c h = rw (write_over-inside bs o c h) (
    omega (
      arith,
      length-append (take o bs) (c ++ drop (o + length c) bs),
      length-append c (drop (o + length c) bs),
      length-take o bs,
      length-drop (o + length c) bs,
    ))

length-write_over :
    (bs : List ℕ) (o : ℕ) (c : List ℕ)
    → o + length c ≤ length bs
    → length (write_over bs o c) ≡ length bs
length-write_over bs o c h = omega (arith, length-write_over_at bs o c (omega arith))

take-length : (o : ℕ) (bs : List ℕ) → o ≤ length bs → length (take o bs) ≡ o
take-length o bs h = omega (arith, length-take o bs)

-- What a write leaves up to its end, and behind it.
take-write_over :
    (bs : List ℕ) (o : ℕ) (c : List ℕ)
    → o + length c ≤ length bs
    → take (o + length c) (write_over bs o c) ≡ take o bs ++ c
take-write_over bs o c h =
    let front = take-length o bs (omega arith) in
    rw (write_over-inside bs o c (omega arith)) (
      take-append_past (o + length c) (length c) (take o bs) (c ++ drop (o + length c) bs)
        (omega (arith, front))
      ∙ ap (λ r. take o bs ++ r)
          (take-append_le (length c) c (drop (o + length c) bs) (omega arith)
            ∙ take-whole (length c) c (omega arith)))

drop-write_over :
    (bs : List ℕ) (o : ℕ) (c : List ℕ) (n : ℕ)
    → o + length c ≤ n
    → n ≤ length bs
    → drop n (write_over bs o c) ≡ drop n bs
drop-write_over bs o c n h k =
    let front = take-length o bs (omega arith) in
    let rest = n - (o + length c) in
    rw (write_over-inside bs o c (omega arith)) (
      drop-append_past n (n - o) (take o bs) (c ++ drop (o + length c) bs) (omega (arith, front))
      ∙ drop-append_past (n - o) rest c (drop (o + length c) bs) (omega arith)
      ∙ drop-drop rest (o + length c) bs
      ∙ ap (λ k. drop k bs) (omega arith))

take-own_length : (n : ℕ) (xs : List ℕ) → take (length (take n xs)) xs ≡ take n xs
take-own_length zero xs = refl
take-own_length (suc n) [] = refl
take-own_length (suc n) (x ∷ xs) = ap (λ r. x ∷ r) (take-own_length n xs)

read_piece :
    (bs : List ℕ) (r n : ℕ)
    → read_from bs r n ++ drop (r + length (read_from bs r n)) bs ≡ drop r bs
read_piece bs r n =
    let xs = drop r bs in
    let m = length (take n xs) in
    ap (λ t. t ++ drop (r + m) bs) (sym (take-own_length n xs))
    ∙ ap (λ t. take m xs ++ t) (sym (drop-drop m r bs))
    ∙ take-append-drop m xs

-- What the loop leaves: the bytes in front of the write position, then those from the read position
-- on; the size of the file is not changed.
pub record Copied (bs : List ℕ) (r w : ℕ) (o : Option (List ℕ)) : Type 0 where
  pub result : List ℕ
  pub done : o ≡ some result
  pub size : length result ≡ length bs
  pub front : take (w + (length bs - r)) result ≡ take w bs ++ drop r bs

pub copy_loop-Copied :
    (fuel : ℕ) (bs : List ℕ) (r w : ℕ)
    → w ≤ r
    → r ≤ length bs
    → length bs - r < fuel
    → Copied bs r w (copy_loop fuel bs r w (length bs - r))
unfolding copy_loop
copy_loop-Copied zero bs r w h k f = absurd (omega arith)
copy_loop-Copied (suc fuel) bs r w h k f =
    let c = read_from bs r bufsize in
    let n = length c in
    let size_of : n ≡ min bufsize (length bs - r) =
      omega (arith, length-take bufsize (drop r bs), length-drop r bs) in
    elim (Bool-cases (length bs - r == 0 || n == 0)) [
      | inl stop ↦
          let at_end : r ≡ length bs = stops r (length bs) n k size_of stop in
          rw stop (record {
            result = bs;
            done = refl;
            size = refl;
            front =
                ap (λ j. take j bs) (omega (arith, at_end))
                ∙ sym (append-nil (take w bs))
                ∙ ap (λ t. take w bs ++ t) (sym (drop-whole r bs (omega (arith, at_end))));
          })
      | inr go ↦
          let l = length bs in
          let bs1 = write_over bs w c in
          let in_file : r + n ≤ l = omega (arith, size_of) in
          let same : length bs1 ≡ l = length-write_over bs w c (omega (arith, in_file)) in
          let moves : 1 ≤ n = advances n (l - r) go in
          let left : l - r - n ≡ length bs1 - (r + n) = omega (arith, same) in
          let rest =
            copy_loop-Copied fuel bs1 (r + n) (w + n) (omega arith) (omega (arith, same))
              (omega (arith, same)) in
          rw (go, left)
            (record {
              result = rest.result;
              done = rest.done;
              size = rest.size ∙ same;
              front =
                  let upto : w + (l - r) ≡ w + n + (length bs1 - (r + n)) = omega (arith, same) in
                  ap (λ j. take j rest.result) upto
                  ∙ rest.front
                  ∙ ap₂ ◌++◌ (take-write_over bs w c (omega (arith, in_file)))
                      (drop-write_over bs w c (r + n) (omega arith) in_file)
                  ∙ append_assoc (take w bs) c (drop (r + n) bs)
                  ∙ ap (λ t. take w bs ++ t) (read_piece bs r bufsize);
            })
    ]
  where
    advances : (n m : ℕ) → (m == 0 || n == 0) ≡ false → 1 ≤ n
    advances n m h = ground arith

    stops : (r l n : ℕ) → r ≤ l → n ≡ min bufsize (l - r) → (l - r == 0 || n == 0) ≡ true → r ≡ l
    stops r l n k e h = ground arith
