-- ===== src/Vtkbd/Progress.antt =====
-- `vtkbd_process` as a state machine: what a call returns, and how soon a key is complete.
use brs_bbs.Prelude.{
  ℕ, zero, suc, ◌+◌, ◌≤◌, ◌<◌, ◌≡◌, refl, sym, ap, ◌∙◌, ◌≢◌, inl, inr, Bool, true, false, Option,
  none, some, List, [], ◌∷◌, arith, ◌==◌, if◌then◌else◌, Bool-cases, length,
}
use brs_bbs.Prelude.Bytes.{AreBytes}
use brs_bbs.Vtkbd.{
  VkState, normal, esc, esc_app, esc_quote, one, two, tlide, VtkbdCtx, key_incomplete, key_home,
  process_in, process,
}

-- What the final byte `~` will return is a key of the two extended sets.
abbrev pub ArgFits : VkState → ℕ → Type 0
ArgFits tlide arg = (key_home ≤ arg) × (arg ≤ 0x030c)
ArgFits _ arg = Unit

abbrev pub IsValid : VtkbdCtx → Type 0
IsValid ctx = ArgFits ctx.state ctx.esc_arg

-- The most bytes that may follow before the sequence ends.
abbrev pub rank : VkState → ℕ
rank normal = 0
rank tlide = 1
rank esc_app = 1
rank one = 2
rank two = 2
rank esc_quote = 3
rank esc = 4

-- A sequence has begun and is not complete.
abbrev pub is_pending : VkState → Bool
is_pending normal = false
is_pending _ = true

process_in-ArgFits :
    (s : VkState) (c : ℕ) (ctx : VtkbdCtx)
    → ctx.state ≡ s
    → ArgFits s ctx.esc_arg
    → IsValid (process_in s c ctx).1
unfolding process_in
process_in-ArgFits normal c ctx e v = ground arith
process_in-ArgFits _ c ctx e v = ground arith

process_in-is_pending :
    (s : VkState) (c : ℕ) (ctx : VtkbdCtx)
    → ctx.state ≡ s
    → c < 256
    → ArgFits s ctx.esc_arg
    → ((process_in s c ctx).0 == key_incomplete) ≡ is_pending (process_in s c ctx).1.state
unfolding process_in
process_in-is_pending normal c ctx e b v = ground arith
process_in-is_pending _ c ctx e b v = ground arith

process_in-rank :
    (s : VkState) (c : ℕ) (ctx : VtkbdCtx) → s ≢ normal → rank (process_in s c ctx).1.state < rank s
unfolding process_in
process_in-rank normal c ctx ne = absurd (ne refl)
process_in-rank _ c ctx ne = ground arith

pub process-is_pending :
    (c : ℕ) (ctx : VtkbdCtx)
    → c < 256
    → IsValid ctx
    → ((process c ctx).0 == key_incomplete) ≡ is_pending (process c ctx).1.state
unfolding process
process-is_pending c ctx b v = process_in-is_pending ctx.state c ctx refl b v

pub process-IsValid : (c : ℕ) (ctx : VtkbdCtx) → IsValid ctx → IsValid (process c ctx).1
unfolding process
process-IsValid c ctx v = process_in-ArgFits ctx.state c ctx refl v

-- The caller's loop: bytes are fed until a call returns a key, which comes with the context and
-- the bytes that are left.
unfoldable pub next_key : VtkbdCtx → List ℕ → Option (ℕ × VtkbdCtx × List ℕ)
next_key ctx [] = none
next_key ctx (c ∷ cs) =
    let r = process c ctx in
    let rest = next_key r.1 cs in if r.0 == key_incomplete then rest else some (r.0, r.1, cs)

-- A key has been read, at most `n` bytes were taken for it, and the parser is at rest.
abbrev pub Reads : ℕ → List ℕ → Option (ℕ × VtkbdCtx × List ℕ) → Type 0
Reads n cs none = ⊥
Reads n cs (some (key, ctx, rest)) =
    (key ≢ key_incomplete) × (ctx.state ≡ normal) × IsValid ctx × (length cs ≤ length rest + n)

Reads-cons :
    (n c : ℕ) (cs : List ℕ) (r : Option (ℕ × VtkbdCtx × List ℕ))
    → Reads n cs r
    → Reads (suc n) (c ∷ cs) r
Reads-cons n c cs none h = h
Reads-cons n c cs (some (key, ctx, rest)) h = (h.0, h.1, h.2, omega arith)

is_pending-ne_normal : (s : VkState) → is_pending s ≡ true → s ≢ normal
is_pending-ne_normal s h e = cc (ap is_pending e)

is_pending-normal : (s : VkState) → is_pending s ≡ false → s ≡ normal
is_pending-normal s h = ground arith

process-rank :
    (c : ℕ) (ctx : VtkbdCtx) → ctx.state ≢ normal → rank (process c ctx).1.state < rank ctx.state
unfolding process
process-rank c ctx ne = process_in-rank ctx.state c ctx ne

ne-key_incomplete : (k : ℕ) → (k == key_incomplete) ≡ false → k ≢ key_incomplete
ne-key_incomplete k h e = ground arith

-- One byte of the loop: the rest is only needed while the parser is inside a sequence.
next_key-cons :
    (n c : ℕ) (cs : List ℕ) (ctx : VtkbdCtx)
    → AreBytes (c ∷ cs)
    → IsValid ctx
    → (IsValid (process c ctx).1
        → (process c ctx).1.state ≢ normal
        → Reads n cs (next_key (process c ctx).1 cs))
    → Reads (suc n) (c ∷ cs) (next_key ctx (c ∷ cs))
unfolding next_key
next_key-cons n c cs ctx b v later =
    let pending = process-is_pending c ctx b.0 v in
    let v' = process-IsValid c ctx v in
    elim (Bool-cases ((process c ctx).0 == key_incomplete)) [
      | inl more ↦
          rw more (Reads-cons n c cs _ (later v' (is_pending-ne_normal _ (sym pending ∙ more))))
      | inr done ↦
          rw done
            (ne-key_incomplete _ done, is_pending-normal _ (sym pending ∙ done), v', omega arith)
    ]

next_key-Reads :
    (cs : List ℕ) (n : ℕ) (ctx : VtkbdCtx)
    → AreBytes cs
    → IsValid ctx
    → ctx.state ≢ normal
    → rank ctx.state ≤ n
    → n ≤ length cs
    → Reads n cs (next_key ctx cs)
next_key-Reads cs zero ctx b v p r h = absurd (p (ground arith))
next_key-Reads [] (suc n) ctx b v p r h = absurd (omega arith)
next_key-Reads (c ∷ cs) (suc n) ctx b v p r h = next_key-cons n c cs ctx b v (λ v' p'.
    next_key-Reads cs n (process c ctx).1 b.1 v' p' (omega (arith, process-rank c ctx p))
      (omega arith))

rank-le_four : (s : VkState) → rank s ≤ 4
rank-le_four s = ground arith

-- Whatever bytes arrive, a parser that is at rest or inside a sequence returns a key other than
-- `KEY_INCOMPLETE` within five bytes, and is then at rest and valid again.
pub next_key-within_five :
    (cs : List ℕ) (ctx : VtkbdCtx)
    → AreBytes cs
    → IsValid ctx
    → 5 ≤ length cs
    → Reads 5 cs (next_key ctx cs)
next_key-within_five [] ctx b v h = absurd (omega arith)
next_key-within_five (c ∷ cs) ctx b v h =
    next_key-cons 4 c cs ctx b v
      (λ v' p. next_key-Reads cs 4 _ b.1 v' p (rank-le_four _) (omega arith))
