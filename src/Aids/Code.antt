-- ===== src/Aids/Code.antt =====
-- The code of an article is read back as its number.
use brs_bbs.Prelude.{
  ℕ, zero, suc, ◌+◌, ◌/◌, ◌%◌, ◌^◌, ◌<◌, ◌≡◌, refl, sym, ap, ◌∙◌, ◌⊎◌, false, some, List, [], ◌∷◌,
  ◌++◌, arith, ◌==◌, length,
}
use brs_bbs.Aids.{code_char, code_loop, aidu2aidc, code_value, read_code, aidc2aidu}

code_value-code_char : (v : ℕ) → v < 64 → code_value (code_char v) ≡ some v
unfolding code_value code_char
code_value-code_char v h = ground arith

code_char-ne_space : (v : ℕ) → v < 64 → (code_char v == 32) ≡ false
unfolding code_char
code_char-ne_space v h = ground arith

-- One character is read back, where the number before it is the rest of the division.
read_code-code_char :
    (m : ℕ) (cs : List ℕ)
    → m < 2 ^ 58
    → read_code (m / 64) (code_char (m % 64) ∷ cs) ≡ read_code m cs
unfolding read_code
read_code-code_char m cs h =
    let v : m % 64 < 64 = omega arith in
    rw
      (
        code_char-ne_space (m % 64) v,
        code_value-code_char (m % 64) v,
        code_value-code_char (m % 64) v,
      )
      (ap (λ a. read_code a cs) (omega arith))

-- The number without its last `n` digits.
shortened : ℕ → ℕ → ℕ
shortened zero m = m
shortened (suc n) m = shortened n (m / 64)

read_code-code_loop :
    (n m : ℕ) (acc : List ℕ)
    → m < 2 ^ 58
    → read_code (shortened n m) (code_loop n m acc) ≡ read_code m acc
unfolding shortened code_loop
read_code-code_loop zero m acc h = refl
read_code-code_loop (suc n) m acc h =
    read_code-code_loop n (m / 64) (code_char (m % 64) ∷ acc) (omega arith)
    ∙ read_code-code_char m acc h

code_loop-append :
    (n m : ℕ) (acc rest : List ℕ) → code_loop n m acc ++ rest ≡ code_loop n m (acc ++ rest)
unfolding code_loop
code_loop-append zero m acc rest = refl
code_loop-append (suc n) m acc rest = code_loop-append n (m / 64) (code_char (m % 64) ∷ acc) rest

length-code_loop : (n m : ℕ) (acc : List ℕ) → length (code_loop n m acc) ≡ n + length acc
unfolding code_loop
length-code_loop zero m acc = omega arith
length-code_loop (suc n) m acc =
    omega (arith, length-code_loop n (m / 64) (code_char (m % 64) ∷ acc))

-- where the loop of `aidc2aidu` stops
abbrev pub EndsCode : List ℕ → Type 0
EndsCode [] = Unit {0}
EndsCode (c ∷ cs) = (c ≡ 32) ⊎ (c ≡ b'@')

read_code-end : (m : ℕ) (rest : List ℕ) → EndsCode rest → read_code m rest ≡ m
unfolding read_code code_value
read_code-end m [] h = refl
read_code-end m (c ∷ cs) h = ground arith

-- The code of a number below 2^48, which those of file names are, has 8 characters, and `aidc2aidu`
-- reads the number back, at the end of the string or in front of a space or an `@`.
pub aidc2aidu-aidu2aidc :
    (aidu : ℕ) (rest : List ℕ)
    → aidu < 2 ^ 48
    → EndsCode rest
    → (length (aidu2aidc aidu) ≡ 8) × (aidc2aidu (aidu2aidc aidu ++ rest) ≡ aidu)
unfolding aidc2aidu aidu2aidc shortened
aidc2aidu-aidu2aidc aidu rest h e =
    let none_left : shortened 8 aidu ≡ 0 = omega arith in
    (
      length-code_loop 8 aidu [],
      rw (code_loop-append 8 aidu [] rest) (
          ap (λ a. read_code a (code_loop 8 aidu rest)) (sym none_left)
          ∙ read_code-code_loop 8 aidu rest (omega arith)
          ∙ read_code-end aidu rest e),
    )
