-- ===== src/Text/Ansi.antt =====
-- The ANSI escape sequences in common/sys/string.c: `strip_ansi`, `strat_ansi`, `strlen_noansi`.
-- `EscapeFlag` is indexed by a `char`, which is signed: a byte above 127 reads memory in front of
-- the table. What stands there is the parameter `before`.
pub mod Strip
pub mod Again
pub mod Offset
use brs_bbs.Prelude.{
  ℕ, zero, suc, ◌+◌, ◌-◌, ◌*◌, ◌/◌, ◌%◌, ◌^◌, ◌≤◌, ◌<◌, min, ◌≡◌, refl, sym, ap, ap₂, ◌∙◌, subst,
  ◌≢◌, ◌↔◌, ◌⊎◌, inl, inr, Bool, true, false, not, ◌&&◌, ◌||◌, Option, none, some, List, [], ◌∷◌,
  ◌++◌, append-nil, append_assoc, map, flatten, arith, ltb, leb, ◌==◌, if◌then◌else◌, ltb→lt,
  lt→ltb, leb→le, ==_iff, tests, Bool-cases, Option-cases, within, length, get_elem?, set,
  length-append, length-set, take, drop, replicate, length-take, length-drop, take-append-drop,
  length-replicate,
}

abbrev pub esc_chr : ℕ
esc_chr = 27

-- `EscapeFlag`: 1 for parameters, 2 for commands
pub escape_flag : ℕ → ℕ
escape_flag c =
    if within 0x30 0x39 c || (c == b';' || c == b'=')
    then 1
    else if within b'A' b'D' c || within b'H' b'K' c
    then 2
    else if c == b'f' || (c == b'h' || (c == b'l' || (c == b'm' || (c == b's' || c == b'u'))))
    then 2
    else 0

-- `enum STRIP_FLAG`
pub data StripFlag : Type 0 where
  strip_all only_color no_reload : StripFlag

-- The modes of `strat_ansi` and `strlen_noansi`: 0, 1 and 2.
pub data Mode : Type 0 where
  no_ansi bracket param : Mode

-- The result of `strat_ansi`: an offset, or the number of blanks missing, which it negates.
pub data Place : Type 0 where
  offset : ℕ → Place
  missing : ℕ → Place

module _ (before : ℕ → ℕ) where
  pub flag_at : ℕ → ℕ
  flag_at c = if ltb c 128 then escape_flag c else before c

  -- `EscapeFlag[(int)(X)] & 1` and `& 2`; the NUL behind a string has neither.
  pub is_escape_param : ℕ → Bool
  is_escape_param c = flag_at c % 2 == 1

  pub is_escape_command : ℕ → Bool
  is_escape_command c = flag_at c / 2 % 2 == 1

  -- `while(isEscapeParam(*++p))`: the parameters, and what `p` is at.
  pub scan_params : List ℕ → List ℕ × List ℕ
  scan_params [] = ([], [])
  scan_params (c ∷ cs) =
      let r = scan_params cs in if is_escape_param c then (c ∷ r.0, r.1) else ([], c ∷ cs)

  -- whether the sequence that ends in the byte is kept
  pub is_kept : StripFlag → ℕ → Bool
  is_kept strip_all c = false
  is_kept only_color c = c == b'm'
  is_kept no_reload c = is_escape_command c

  -- The loop of `strip_ansi`, on fuel: the count, and the bytes stored at `dst`.
  pub strip_loop : ℕ → StripFlag → List ℕ → ℕ × List ℕ
  strip_loop zero mode src = (0, [])
  strip_loop (suc fuel) mode [] = (0, [])
  strip_loop (suc fuel) mode (c ∷ []) = if c == esc_chr then (0, []) else (1, c ∷ [])
  strip_loop (suc fuel) mode (c ∷ d ∷ cs) =
      let text = strip_loop fuel mode (d ∷ cs) in
      let skipped = strip_loop fuel mode cs in
      let scan = scan_params cs in
      let behind = strip_loop fuel mode (drop 1 scan.1) in
      if not (c == esc_chr)
      then (text.0 + 1, c ∷ text.1)
      else if not (d == b'[')
      then skipped
      else elim scan.1 [
        | [] ↦ (0, [])
        | e ∷ _ ↦
            let kept = c ∷ d ∷ (scan.0 ++ (e ∷ [])) in
            if is_kept mode e then (behind.0 + length kept, kept ++ behind.1) else behind
      ]

  -- Each round takes at least one byte, so the length is enough.
  pub strip_ansi : List ℕ → StripFlag → ℕ × List ℕ
  strip_ansi src mode = strip_loop (length src) mode src

  pub next_mode : Mode → ℕ → Mode
  next_mode no_ansi c = if c == esc_chr then bracket else no_ansi
  next_mode bracket c = if c == b'[' then param else no_ansi
  next_mode param c = if is_escape_param c then param else no_ansi

  -- whether the byte counts as a character
  pub is_shown : Mode → ℕ → Bool
  is_shown no_ansi c = not (c == esc_chr)
  is_shown _ c = false

  -- The loop of `strat_ansi`.
  pub strat_loop : Mode → ℕ → List ℕ → ℕ → Place
  strat_loop mode zero s pos = offset pos
  strat_loop mode (suc count) [] pos = missing (suc count)
  strat_loop mode (suc count) (c ∷ cs) pos =
      let shown = strat_loop (next_mode mode c) count cs (pos + 1) in
      let other = strat_loop (next_mode mode c) (suc count) cs (pos + 1) in
      if is_shown mode c then shown else other

  -- `strat_ansi`, for a count that is not negative
  pub strat_ansi : ℕ → List ℕ → Place
  strat_ansi count s = strat_loop no_ansi count s 0

  -- The loop of `strlen_noansi`.
  pub noansi_loop : Mode → List ℕ → ℕ
  noansi_loop mode [] = 0
  noansi_loop mode (c ∷ cs) =
      let rest = noansi_loop (next_mode mode c) cs in if is_shown mode c then rest + 1 else rest

  pub strlen_noansi : List ℕ → ℕ
  strlen_noansi s = noansi_loop no_ansi s
