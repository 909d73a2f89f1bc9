-- ===== src/Telnet/Options.antt =====
-- Option negotiation: what is answered, and that no answer is answered.
use brs_bbs.Prelude.{
  ℕ, ◌≡◌, refl, ap, ap₂, ◌∙◌, ◌⊎◌, Bool, true, false, not, ◌&&◌, ◌||◌, List, [], ◌∷◌, ◌++◌,
  append-nil, arith, ◌==◌, if◌then◌else◌,
}
use brs_bbs.Telnet.{
  none_, wait_opt, TelnetCtx, Callbacks, Event, wrote, handler, handle_in, enter_state, is_claimed,
  hash_events, process_loop, process, iac, dont, do_, wont, will, nop,
}
use brs_bbs.Telnet.Stream.{visible, visible-append, process-eq-loop}

abbrev pub is_verb : ℕ → Bool
is_verb c = c == dont || (c == do_ || (c == wont || c == will))

-- A request for an option that was not claimed is refused, and nothing else is answered.
abbrev pub answer : ℕ → ℕ → List Event
answer verb opt =
    if is_claimed opt
    then []
    else if verb == will
    then wrote (iac ∷ dont ∷ opt ∷ []) ∷ []
    else if verb == do_
    then wrote (iac ∷ wont ∷ opt ∷ []) ∷ []
    else []

module _ (cb : Callbacks) where
  pub handler-iac :
      (ctx : TelnetCtx)
      → ctx.iac_quote ≡ false
      → handler cb ctx iac ≡ (nop, record ctx { iac_quote = true }, [])
  unfolding handler
  handler-iac ctx q = ground arith

  visible_hash : (ctx : TelnetCtx) (c : ℕ) → visible (hash_events cb ctx c) ≡ []
  unfolding visible hash_events
  visible_hash ctx c = ground arith

  -- A byte that is not a new IAC is handled in the state that it enters; hashing it is not visible.
  pub handler_in :
      (ctx : TelnetCtx) (c : ℕ)
      → (c == iac && not ctx.iac_quote) ≡ false
      → let s = enter_state ctx c in
        let h = handle_in cb s (record ctx { iac_state = s; iac_quote = false }) c in
        ((handler cb ctx c).0 ≡ h.0)
        × ((handler cb ctx c).1 ≡ h.1)
        × (visible (handler cb ctx c).2 ≡ visible h.2)
  handler_in ctx c h = (
    unfold handler in rw h,
    unfold handler in rw h,
    unfold handler in
        rw h (
          visible-append (hash_events cb ctx c) _
          ∙ ap
              (λ (r : List Event).
                r
                ++ visible
                    (handle_in cb (enter_state ctx c)
                      (record ctx { iac_state = enter_state ctx c; iac_quote = false }) c).2)
              (visible_hash ctx c)),
  )

  handler_verb :
      (ctx : TelnetCtx) (verb : ℕ)
      → ctx.iac_state ≡ none_
      → ctx.iac_quote ≡ true
      → is_verb verb ≡ true
      → let r = handler cb ctx verb in
        (r.0 ≡ nop)
        × (r.1 ≡ record ctx { iac_state = wait_opt; iac_quote = false; iac_opt_req = verb })
        × (visible r.2 ≡ [])
  unfolding visible handle_in enter_state
  handler_verb ctx verb s q v = ground (arith, handler_in ctx verb)

  handler_opt :
      (ctx : TelnetCtx) (opt : ℕ)
      → ctx.iac_state ≡ wait_opt
      → ctx.iac_quote ≡ false
      → (opt == iac) ≡ false
      → let r = handler cb ctx opt in
        (r.0 ≡ 1)
        × (r.1 ≡ record ctx { iac_state = none_ })
        × (visible r.2 ≡ answer ctx.iac_opt_req opt)
  unfolding visible handle_in enter_state
  handler_opt ctx opt s q n = ground (arith, handler_in ctx opt)

  -- The bytes are all taken as commands: they end in `ctx'` with these events, and none is input.
  abbrev pub Consumes : TelnetCtx → List ℕ → TelnetCtx → List Event → Type 0
  Consumes ctx xs ctx' es =
      ((process_loop cb ctx xs).0 ≡ [])
      × ((process_loop cb ctx xs).1 ≡ ctx')
      × (visible (process_loop cb ctx xs).2 ≡ es)

  pub Consumes-cons :
      (ctx : TelnetCtx) (c : ℕ) (cs : List ℕ) {ctx1 ctx' : TelnetCtx} {es fs : List Event}
      → ((handler cb ctx c).0 == 0) ≡ false
      → (handler cb ctx c).1 ≡ ctx1
      → visible (handler cb ctx c).2 ≡ es
      → Consumes ctx1 cs ctx' fs
      → Consumes ctx (c ∷ cs) ctx' (es ++ fs)
  unfolding process_loop
  Consumes-cons ctx c cs {ctx1} {ctx'} {es} {fs} n e v later = (
    rw n (ap (λ k. (process_loop cb k cs).0) e ∙ later.0),
    ap (λ k. (process_loop cb k cs).1) e ∙ later.1,
    visible-append (handler cb ctx c).2 _
        ∙ ap₂ ◌++◌ v (ap (λ k. visible (process_loop cb k cs).2) e ∙ later.2),
  )

  pub Consumes-nil : (ctx : TelnetCtx) → Consumes ctx [] ctx []
  unfolding process_loop visible
  Consumes-nil ctx = (refl, refl, refl)

  negotiation :
      (ctx : TelnetCtx) (verb opt : ℕ)
      → ctx.iac_state ≡ none_
      → ctx.iac_quote ≡ false
      → is_verb verb ≡ true
      → (opt == iac) ≡ false
      → Consumes ctx
          (iac ∷ verb ∷ opt ∷ [])
          (record ctx { iac_state = none_; iac_quote = false; iac_opt_req = verb })
          (answer verb opt ++ [])
  negotiation ctx verb opt s q v n =
      let ctx1 = record ctx { iac_quote = true } in
      let ctx2 = record ctx { iac_state = wait_opt; iac_opt_req = verb; iac_quote = false } in
      let a = handler-iac ctx q in
      let b = handler_verb ctx1 verb s refl v in
      let c = handler_opt ctx2 opt refl refl n in
      Consumes-cons ctx iac (verb ∷ opt ∷ []) {es = []} (rw a) (rw a)
        (rw a (unfold visible in refl))
        (Consumes-cons ctx1 verb (opt ∷ []) (rw b.0) b.1 b.2
          (Consumes-cons ctx2 opt [] (rw c.0) c.1 c.2 (Consumes-nil _)))

  -- With the parser at rest, `IAC verb option`, of one of the four verbs and an option other than IAC,
  -- is taken whole as a command; a WILL is refused by DONT and a
  -- DO by WONT unless the server claimed the option itself, and a WONT or a DONT is never answered:
  -- so an answer is never answered, and no negotiation can go on for ever.
  pub process_negotiation :
      (ctx : TelnetCtx) (verb opt : ℕ)
      → ctx.iac_state ≡ none_
      → ctx.iac_quote ≡ false
      → is_verb verb ≡ true
      → (opt == iac) ≡ false
      → let r = process cb ctx (iac ∷ verb ∷ opt ∷ []) in
        (r.0 ≡ [])
        × (r.1 ≡ record ctx { iac_state = none_; iac_quote = false; iac_opt_req = verb })
        × (visible r.2 ≡ answer verb opt)
        × ((verb ≡ wont) ⊎ (verb ≡ dont) → visible r.2 ≡ [])
  process_negotiation ctx verb opt s q v n =
      let same = process-eq-loop cb ctx (iac ∷ verb ∷ opt ∷ []) in
      let r = negotiation ctx verb opt s q v n in
      let said = same.2 ∙ r.2 ∙ append-nil (answer verb opt) in
      (same.0 ∙ r.0, same.1 ∙ r.1, said, λ h. said ∙ ground arith)
