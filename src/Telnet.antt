-- ===== src/Telnet.antt =====
-- common/sys/telnet.c: the server side of TELNET, between the socket and the keyboard parser.
-- Callbacks and writes are events, in the order in which the code makes them; which callbacks are
-- set is a parameter. The codes of <arpa/telnet.h> are those of RFC 854.
pub mod Stream
pub mod Bounds
pub mod Options
pub mod Resize
mod Tests
use brs_bbs.Prelude.{
  ℕ, zero, suc, ◌+◌, ◌-◌, ◌*◌, ◌/◌, ◌%◌, ◌^◌, ◌≤◌, ◌<◌, min, ◌≡◌, refl, sym, ap, ap₂, ◌∙◌, subst,
  ◌≢◌, ◌↔◌, ◌⊎◌, inl, inr, Bool, true, false, not, ◌&&◌, ◌||◌, Option, none, some, List, [], ◌∷◌,
  ◌++◌, append-nil, append_assoc, arith, ltb, leb, ◌==◌, if◌then◌else◌, ltb→lt, lt→ltb, leb→le,
  ==_iff, tests, Bool-cases, Option-cases, within, length, get_elem?, set, length-append,
  length-set, take, drop, replicate, length-take, length-drop, take-append-drop, length-replicate,
}
use brs_bbs.Prelude.Bytes.{at}

abbrev pub iac : ℕ
iac = 255

abbrev pub dont : ℕ
dont = 254

abbrev pub do_ : ℕ
do_ = 253

abbrev pub wont : ℕ
wont = 252

abbrev pub will : ℕ
will = 251

abbrev pub sb : ℕ
sb = 250

abbrev pub ayt : ℕ
ayt = 246

abbrev pub nop : ℕ
nop = 241

abbrev pub se : ℕ
se = 240

abbrev pub telopt_binary : ℕ
telopt_binary = 0

abbrev pub telopt_echo : ℕ
telopt_echo = 1

abbrev pub telopt_sga : ℕ
telopt_sga = 3

abbrev pub telopt_ttype : ℕ
telopt_ttype = 24

abbrev pub telopt_naws : ℕ
telopt_naws = 31

abbrev pub telqual_send : ℕ
telqual_send = 1

abbrev pub telnet_iac_maxlen : ℕ
telnet_iac_maxlen = 32

-- `TELNET_IAC_STATES`; `none_` is `IAC_NONE`. No code sets `IAC_ERROR`.
pub data IacState : Type 0 where
  none_ command wait_opt wait_se process_opt : IacState

pub record TelnetCtx : Type 0 where
  pub iac_state : IacState
  pub iac_quote : Bool
  pub iac_opt_req : ℕ
  pub iac_buf : List ℕ
  pub iac_buflen : ℕ

-- Which callbacks are set; `update_client_code` counts if `cc_arg` is set too.
pub record Callbacks : Type 0 where
  pub term_resize : Bool
  pub update_client_code : Bool
  pub send_ayt : Bool
  pub ttype : Bool

pub data Event : Type 0 where
  wrote : List ℕ → Event
  resized : ℕ → ℕ → Event
  client_code : ℕ → Event
  ayt_sent : Event
  term_type : List ℕ → Event

-- `memset(ctx, 0, sizeof(TelnetCtx))`
pub ctx_init : TelnetCtx
ctx_init = record {
  iac_state = none_;
  iac_quote = false;
  iac_opt_req = 0;
  iac_buf = replicate telnet_iac_maxlen 0;
  iac_buflen = 0;
}

-- `telnet_init_cmds`
pub init_cmds : List ℕ
init_cmds =
    iac ∷ do_ ∷ telopt_ttype ∷ iac ∷ sb ∷ telopt_ttype ∷ telqual_send ∷ iac ∷ se ∷ iac ∷ do_
    ∷ telopt_naws ∷ iac ∷ will ∷ telopt_echo ∷ iac ∷ will ∷ telopt_sga ∷ iac ∷ will ∷ telopt_binary
    ∷ iac ∷ do_ ∷ telopt_binary ∷ []

-- `telnet_ctx_send_init_cmds`
pub send_init_cmds : List Event
send_init_cmds = wrote init_cmds ∷ []

-- "I'm still alive.\r\n"
pub default_ayt : List ℕ
default_ayt =
    b'I' ∷ 39 ∷ b'm' ∷ 32 ∷ b's' ∷ b't' ∷ b'i' ∷ b'l' ∷ b'l' ∷ 32 ∷ b'a' ∷ b'l' ∷ b'i' ∷ b'v' ∷ b'e'
    ∷ b'.' ∷ 13 ∷ 10 ∷ []

-- The result of the handler: 0 if the byte is input, else a TELNET code; the context; the events.
abbrev pub Handled : Type 0
Handled = ℕ × TelnetCtx × List Event

-- the options that the server has claimed in `telnet_init_cmds`
pub is_claimed : ℕ → Bool
is_claimed c =
    c == telopt_ttype
    || (c == telopt_naws || (c == telopt_sga || (c == telopt_echo || c == telopt_binary)))

-- `IAC_WAIT_OPT`
pub handle_opt : TelnetCtx → ℕ → Handled
unfolding is_claimed
handle_opt ctx c =
    let asks = ctx.iac_opt_req == will || ctx.iac_opt_req == do_ in
    let answer = if ctx.iac_opt_req == do_ then wont else dont in
    (
      1,
      record ctx { iac_state = none_ },
      if is_claimed c then [] else if asks then wrote (iac ∷ answer ∷ c ∷ []) ∷ [] else [],
    )

-- `IAC_WAIT_SE`
pub handle_se : TelnetCtx → ℕ → Handled
handle_se ctx c =
    let stored = record ctx {
      iac_buf = set ctx.iac_buf ctx.iac_buflen c;
      iac_buflen = ctx.iac_buflen + 1;
    } in
    if ctx.iac_buflen + 1 == telnet_iac_maxlen
    then (0, record stored { iac_state = none_ }, [])
    else (1, stored, [])

-- the code for the size of the screen
pub size_code : ℕ → ℕ → ℕ
size_code w h = if w == 80 && h == 24 then 1 else if w == 80 then 2 else if h == 24 then 3 else 4

-- The state in which the byte is handled: a quoted byte begins a command, or ends a suboption.
pub enter_state : TelnetCtx → ℕ → IacState
enter_state ctx c =
    if ctx.iac_quote
    then elim ctx.iac_state [
      | none_ ↦ command
      | wait_se ↦ if c == se then process_opt else wait_se
      | s ↦ s
    ]
    else ctx.iac_state

-- `memchr(buf, IAC, size) != NULL`
pub has_iac : List ℕ → Bool
has_iac [] = false
has_iac (c ∷ cs) = if c == iac then true else has_iac cs

-- The prescan of `telnet_process`.
pub is_plain : TelnetCtx → List ℕ → Bool
unfolding has_iac
is_plain ctx buf = elim ctx.iac_state [ none_ ↦ not ctx.iac_quote && not (has_iac buf) | _ ↦ false ]

module _ (cb : Callbacks) where
  -- `telnet_send_ayt`
  pub send_ayt_events : List Event
  send_ayt_events = if cb.send_ayt then ayt_sent ∷ [] else wrote default_ayt ∷ []

  -- `cb(ctx->cc_arg, …)` for each code, if it is set
  abbrev pub tell : List ℕ → List Event
  tell [] = []
  tell (c ∷ cs) = if cb.update_client_code then client_code c ∷ tell cs else []

  -- "hash client telnet sequences"
  pub hash_events : TelnetCtx → ℕ → List Event
  hash_events ctx c = elim ctx.iac_state [
    | wait_se ↦ []
    | _ ↦ tell (if ctx.iac_quote then iac ∷ c ∷ [] else c ∷ [])
  ]

  -- `switch(c)` of `IAC_COMMAND`, whose state is already `IAC_NONE`
  pub handle_command : TelnetCtx → ℕ → Handled
  unfolding send_ayt_events
  handle_command ctx c =
      if c == iac
      then (1, ctx, [])
      else if c == ayt
      then (nop, ctx, send_ayt_events)
      else if c == dont || (c == do_ || (c == wont || c == will))
      then (nop, record ctx { iac_opt_req = c; iac_state = wait_opt }, [])
      else if c == sb
      then (nop, record ctx { iac_state = wait_se; iac_buflen = 0 }, [])
      else (nop, ctx, [])

  -- `IAC_PROCESS_OPT`, on the suboption's buffer
  pub process_opt_events : List ℕ → ℕ → List Event
  unfolding size_code
  process_opt_events buf len =
      let w = at buf 1 * 256 + at buf 2 in
      let h = at buf 3 * 256 + at buf 4 in
      if at buf 0 == telopt_naws
      then (if cb.term_resize then resized w h ∷ [] else [])
        ++ tell (at buf 0 ∷ size_code w h ∷ iac ∷ se ∷ [])
      else (if at buf 0 == telopt_ttype && (cb.ttype && ltb 2 len)
          then term_type (take (len - 2) (drop 2 buf)) ∷ []
          else [])
        ++ tell (take len buf ++ (iac ∷ se ∷ []))

  -- `switch(ctx->iac_state)`
  pub handle_in : IacState → TelnetCtx → ℕ → Handled
  unfolding handle_command handle_opt handle_se
  handle_in none_ ctx c = (0, ctx, [])
  handle_in command ctx c = handle_command (record ctx { iac_state = none_ }) c
  handle_in wait_opt ctx c = handle_opt ctx c
  handle_in wait_se ctx c = handle_se ctx c
  handle_in process_opt ctx c =
      (1, record ctx { iac_state = none_ }, process_opt_events ctx.iac_buf ctx.iac_buflen)

  -- `telnet_handler`
  unfoldable pub handler : TelnetCtx → ℕ → Handled
  unfolding handle_in enter_state hash_events
  handler ctx c =
      let s = enter_state ctx c in
      let r = handle_in s (record ctx { iac_state = s; iac_quote = false }) c in
      if c == iac && not ctx.iac_quote
      then (nop, record ctx { iac_quote = true }, [])
      else (r.0, r.1, hash_events ctx c ++ r.2)

  -- The loop of `telnet_process`: the bytes kept, the context, the events.
  pub process_loop : TelnetCtx → List ℕ → List ℕ × TelnetCtx × List Event
  process_loop ctx [] = ([], ctx, [])
  process_loop ctx (c ∷ cs) =
      let r = handler ctx c in
      let rest = process_loop r.1 cs in
      (if r.0 == 0 then c ∷ rest.0 else rest.0, rest.1, r.2 ++ rest.2)

  -- `telnet_process` on `buf[0..size)`: the bytes that the buffer holds after it, context, events.
  pub process : TelnetCtx → List ℕ → List ℕ × TelnetCtx × List Event
  process ctx buf = let r = process_loop ctx buf in if is_plain ctx buf then (buf, ctx, []) else r

-- The result of `telnet_process`, from the sizes before and after: `none` is -1, which stands for
-- a buffer of which nothing is left.
pub process_result : ℕ → ℕ → Option ℕ
process_result size kept = if size == 0 then some 0 else if kept == 0 then none else some kept
