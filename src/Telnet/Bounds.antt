-- ===== src/Telnet/Bounds.antt =====
-- The suboption buffer: no write past its end, whatever the client sends.
use brs_bbs.Prelude.{ℕ, ◌≤◌, ◌<◌, ◌≡◌, refl, sym, subst, List, [], ◌∷◌, arith, length, length-set}
use brs_bbs.Telnet.{
  IacState, wait_se, process_opt, TelnetCtx, Callbacks, handler, enter_state, process_loop, process,
  telnet_iac_maxlen, ctx_init,
}
use brs_bbs.Telnet.Stream.{process-eq-loop}

-- In a suboption there is room for one more byte; between two bytes no suboption is half processed.
abbrev pub Rests : IacState → ℕ → Type 0
Rests wait_se len = len < telnet_iac_maxlen
Rests process_opt len = ⊥
Rests _ len = len ≤ telnet_iac_maxlen

pub record IsValid (ctx : TelnetCtx) : Type 0 where
  pub storage : length ctx.iac_buf ≡ telnet_iac_maxlen
  pub rests : Rests ctx.iac_state ctx.iac_buflen

-- The byte that `IAC_WAIT_SE` stores falls inside the buffer.
abbrev pub StoresInside : TelnetCtx → ℕ → Type 0
StoresInside ctx c = enter_state ctx c ≡ wait_se → ctx.iac_buflen < length ctx.iac_buf

pub ctx_init-IsValid : IsValid ctx_init
unfolding ctx_init
ctx_init-IsValid = record { storage = refl; rests = omega arith }

module _ (cb : Callbacks) where
  handler-IsValid : (ctx : TelnetCtx) (c : ℕ) → IsValid ctx → IsValid (handler cb ctx c).1
  unfolding handler
  handler-IsValid ctx c ok = ground (arith, length-set ctx.iac_buf ctx.iac_buflen c)

  stores_inside : (ctx : TelnetCtx) (c : ℕ) → IsValid ctx → StoresInside ctx c
  unfolding enter_state
  stores_inside ctx c ok e = ground arith

  process_loop-IsValid :
      (ctx : TelnetCtx) (buf : List ℕ) → IsValid ctx → IsValid (process_loop cb ctx buf).1
  unfolding process_loop
  process_loop-IsValid ctx [] ok = ok
  process_loop-IsValid ctx (c ∷ cs) ok =
      process_loop-IsValid (handler cb ctx c).1 cs (handler-IsValid ctx c ok)

  -- After any bytes from any client, at the next byte `c` a suboption write falls inside the 32 bytes
  -- of `iac_buf`; and what `telnet_process` leaves is valid again.
  pub process-in_bounds :
      (ctx : TelnetCtx) (before : List ℕ) (c : ℕ)
      → IsValid ctx
      → IsValid (process cb ctx before).1 × StoresInside (process cb ctx before).1 c
  process-in_bounds ctx before c ok =
      let ok' =
        subst IsValid (sym (process-eq-loop cb ctx before).1)
          (process_loop-IsValid ctx before ok) in
      (ok', stores_inside (process cb ctx before).1 c ok')
