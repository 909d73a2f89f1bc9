-- ===== src/Telnet/Tests.antt =====
-- Runs of the TELNET server at concrete inputs.
use brs_bbs.Prelude.{ℕ, ◌≡◌, refl, ◌⊎◌, true, false, List, [], ◌∷◌, flatten}
use brs_bbs.Telnet.{
  Callbacks, none_, will, wont, dont, iac, ctx_init, process, process_loop, resized,
}
use brs_bbs.Telnet.Stream.{visible, process_all-flatten, process_all}
use brs_bbs.Telnet.Bounds.{IsValid, StoresInside, ctx_init-IsValid, process-in_bounds}
use brs_bbs.Telnet.Options.{process_negotiation, answer}
use brs_bbs.Telnet.Resize.{process-naws, naws}

abbrev all_set : Callbacks
all_set = record { term_resize = true; update_client_code = true; send_ayt = true; ttype = true }

-- `x IAC WILL 200 y`
abbrev mixed : List ℕ
mixed = b'x' ∷ iac ∷ will ∷ 200 ∷ b'y' ∷ []

process_all-flatten_example :
    let bufs : List (List ℕ) = (b'x' ∷ iac ∷ []) ∷ (will ∷ []) ∷ (200 ∷ b'y' ∷ []) ∷ [] in
    let r = process_all all_set ctx_init bufs in
    let whole = process_loop all_set ctx_init (flatten bufs) in
    (r.0 ≡ whole.0) × (r.1 ≡ whole.1) × (visible r.2 ≡ visible whole.2)
process_all-flatten_example =
    process_all-flatten all_set ctx_init ((b'x' ∷ iac ∷ []) ∷ (will ∷ []) ∷ (200 ∷ b'y' ∷ []) ∷ [])

process-in_bounds_example :
    IsValid (process all_set ctx_init mixed).1
    × StoresInside (process all_set ctx_init mixed).1 b'z'
process-in_bounds_example = process-in_bounds all_set ctx_init mixed b'z' ctx_init-IsValid

process_negotiation_example :
    let r = process all_set ctx_init (iac ∷ will ∷ 200 ∷ []) in
    (r.0 ≡ [])
    × (r.1 ≡ record ctx_init { iac_state = none_; iac_quote = false; iac_opt_req = will })
    × (visible r.2 ≡ answer will 200)
    × ((will ≡ wont) ⊎ (will ≡ dont) → visible r.2 ≡ [])
unfolding ctx_init
process_negotiation_example = process_negotiation all_set ctx_init will 200 refl refl refl refl

process-naws_example :
    let r = process all_set ctx_init (naws 80 24) in
    (r.0 ≡ [])
    × (r.1.iac_state ≡ none_)
    × (r.1.iac_quote ≡ false)
    × (visible r.2 ≡ resized 80 24 ∷ [])
unfolding ctx_init
process-naws_example = process-naws all_set ctx_init 80 24 ctx_init-IsValid refl refl
