-- ===== src/Stdin/Blocking.antt =====
-- A read that blocks: what it returns.
use upy_android.Prelude.{
  ℕ, ◌≡◌, refl, ap, ◌∙◌, Bool, true, false, List, [], ◌∷◌, if◌then◌else◌, take, drop,
}
use mathlib.Core.Path.{ap₂}
use upy_android.Stdin.{
  Stdin, read_available, act, Wake, Outcome, returns, raised, blocked, got, rx_loop, rx_chr,
}
use upy_android.Stdin.Fifo.{IsValid, contents, read_refines}
use upy_android.Stdin.Steps.{
  act_list, act-Acted, rx_loop_some, announce, rx_loop_none, rx_loop_wait, set_waiting-kept,
  announce-Ready,
}

-- What a blocking read of one byte promises: the oldest byte, or the first to arrive.
unfoldable pub rx_list : Bool → List ℕ → List Wake → Outcome ℕ × List ℕ × List Wake
unfolding act_list
rx_list active (c ∷ xs) ws = (returns c, xs, ws)
rx_list active [] [] = (blocked, [], [])
rx_list active [] (w ∷ ws) =
    let later = rx_list active (act_list active [] w.actions) ws in
    if w.raises then (raised, act_list active [] w.actions, ws) else later

-- What a client sees of a read: the outcome, the bytes left, and the wakes left.
abbrev pub seen : Outcome ℕ × Stdin × List Wake → Outcome ℕ × List ℕ × List Wake
seen r = (r.0, contents r.1, r.2)

got-seen :
    (a : Bool) (c : ℕ) (s : Stdin) (ws : List Wake) (xs : List ℕ)
    → contents s ≡ xs
    → IsValid s
    → (seen (got a c s ws) ≡ (returns c, xs, ws)) × IsValid (got a c s ws).1
got-seen true c s ws xs e v =
    let w = set_waiting-kept s false in (ap (λ ys. (returns c, ys, ws)) (w.0 ∙ e), w.1 v)
got-seen false c s ws xs e v = (ap (λ ys. (returns c, ys, ws)) e, v)

rx_loop-seen :
    (ws : List Wake) (s : Stdin) (a : Bool) (xs : List ℕ)
    → contents s ≡ xs
    → IsValid s
    → (seen (rx_loop s a ws) ≡ rx_list s.script_active xs ws) × IsValid (rx_loop s a ws).1
unfolding rx_list
rx_loop-seen ws s a (c ∷ xs) e v =
    let r = read_refines s 1 v in
    let found = rx_loop_some s a ws c [] (r.0 ∙ ap (take 1) e) in
    rw found (got-seen a c (read_available s 1).1 ws xs (r.1 ∙ ap (drop 1) e) r.2)
rx_loop-seen [] s a [] e v =
    let r = read_refines s 1 v in
    let m = announce-Ready s a v in
    rw (rx_loop_none s a (r.0 ∙ ap (take 1) e))
      (ap (λ ys. (blocked, ys, [])) (m.list ∙ ap (drop 1) e), m.valid)
rx_loop-seen (w ∷ ws) s a [] e v =
    let r = read_refines s 1 v in
    let m = announce-Ready s a v in
    let acted = act-Acted (announce s a) w.actions m.valid in
    let ih = rx_loop-seen ws (act (announce s a) w.actions) true _ refl acted.valid in
    rw (rx_loop_wait s a w ws (r.0 ∙ ap (take 1) e)) (wait_cases w.raises acted.valid ih)
  where
    left : contents (act (announce s a) w.actions) ≡ act_list s.script_active [] w.actions
    left =
        let m = announce-Ready s a v in
        (act-Acted (announce s a) w.actions m.valid).list
        ∙ ap₂ (λ b ys. act_list b ys w.actions) m.active (m.list ∙ ap (drop 1) e)

    active : (act (announce s a) w.actions).script_active ≡ s.script_active
    active =
        let m = announce-Ready s a v in
        (act-Acted (announce s a) w.actions m.valid).active ∙ m.active

    wait_cases :
        (b : Bool)
        → IsValid (act (announce s a) w.actions)
        → (seen (rx_loop (act (announce s a) w.actions) true ws)
            ≡ rx_list
                (act (announce s a) w.actions).script_active
                (contents (act (announce s a) w.actions))
                ws)
          × IsValid (rx_loop (act (announce s a) w.actions) true ws).1
        → let r : Outcome ℕ × Stdin × List Wake =
            if b
            then (raised, act (announce s a) w.actions, ws)
            else rx_loop (act (announce s a) w.actions) true ws in
          (seen r ≡ (
            if b
            then (raised, act_list s.script_active [] w.actions, ws)
            else rx_list s.script_active (act_list s.script_active [] w.actions) ws))
          × IsValid r.1
    wait_cases true valid ih = (ap (λ ys. (raised, ys, ws)) left, valid)
    wait_cases false valid ih = (ih.0 ∙ ap₂ (λ b ys. rx_list b ys ws) active left, ih.1)

-- `mp_hal_stdin_rx_chr` on a valid FIFO takes the oldest byte; on an empty one it waits, through
-- any number of wakes, and takes the first byte that arrives, unless a wait raises. It returns,
-- with the bytes left, just what a list would, and leaves the FIFO valid.
pub rx_chr_refines :
    (s : Stdin) (ws : List Wake)
    → IsValid s
    → (seen (rx_chr s ws) ≡ rx_list s.script_active (contents s) ws) × IsValid (rx_chr s ws).1
unfolding rx_chr
rx_chr_refines s ws v = rx_loop-seen ws s false (contents s) refl v
