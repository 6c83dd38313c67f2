-- ===== src/Stdin/Steps.antt =====
-- The parts of a blocking read: the actions of other threads, and one round of the loop.
use upy_android.Prelude.{
  ℕ, ◌-◌, ◌≡◌, refl, ◌∙◌, Bool, true, false, List, [], ◌∷◌, ◌++◌, arith, if◌then◌else◌, length,
  take, drop, not,
}
use mathlib.Core.Path.{ap₂}
use upy_android.Stdin.{
  Stdin, fifo_size, push, read_available, clear, set_waiting, act, Action, feeds, clears, Wake,
  raised, blocked, got, rx_loop, load,
}
use upy_android.Stdin.Fifo.{IsValid, contents, push_refines, read_refines}

-- The FIFO as a list, under the actions of other threads.
unfoldable pub act_list : Bool → List ℕ → List Action → List ℕ
act_list active xs [] = xs
act_list active xs (feeds bytes ∷ rest) =
    act_list active (if active then xs ++ take (fifo_size - length xs) bytes else xs) rest
act_list active xs (clears ∷ rest) = act_list active [] rest

pub record Acted (s : Stdin) (actions : List Action) : Type 0 where
  pub valid : IsValid (act s actions)
  pub list : contents (act s actions) ≡ act_list s.script_active (contents s) actions
  pub active : (act s actions).script_active ≡ s.script_active
  pub waiting : (act s actions).waiting ≡ s.waiting
  pub waiting_cb : (act s actions).waiting_cb ≡ s.waiting_cb
  pub told : (act s actions).told ≡ s.told

pub push-kept :
    (s : Stdin) (bytes : List ℕ)
    → ((push s bytes).1.script_active ≡ s.script_active)
      × ((push s bytes).1.waiting ≡ s.waiting)
      × ((push s bytes).1.waiting_cb ≡ s.waiting_cb)
      × ((push s bytes).1.told ≡ s.told)
unfolding push
push-kept s bytes = ground arith

pub clear-contents : (s : Stdin) → contents (clear s) ≡ []
unfolding clear contents load
clear-contents s = refl

pub clear-IsValid : (s : Stdin) → IsValid s → IsValid (clear s)
unfolding clear
clear-IsValid s v = omega arith

pub clear-kept :
    (s : Stdin)
    → ((clear s).script_active ≡ s.script_active)
      × ((clear s).waiting ≡ s.waiting)
      × ((clear s).waiting_cb ≡ s.waiting_cb)
      × ((clear s).told ≡ s.told)
unfolding clear
clear-kept s = (refl, refl, refl, refl)

pub act-Acted : (s : Stdin) (actions : List Action) → IsValid s → Acted s actions
unfolding act act_list
act-Acted s [] v = record {
  valid = v;
  list = refl;
  active = refl;
  waiting = refl;
  waiting_cb = refl;
  told = refl;
}
act-Acted s (feeds bytes ∷ rest) v =
    let p = push_refines s bytes v in
    let k = push-kept s bytes in
    let ih = act-Acted (push s bytes).1 rest p.2 in
    record {
      valid = ih.valid;
      list = ih.list ∙ ap₂ (λ b xs. act_list b xs rest) k.0 p.1;
      active = ih.active ∙ k.0;
      waiting = ih.waiting ∙ k.1;
      waiting_cb = ih.waiting_cb ∙ k.2;
      told = ih.told ∙ k.3;
    }
act-Acted s (clears ∷ rest) v =
    let k = clear-kept s in
    let ih = act-Acted (clear s) rest (clear-IsValid s v) in
    record {
      valid = ih.valid;
      list = ih.list ∙ ap₂ (λ b xs. act_list b xs rest) k.0 (clear-contents s);
      active = ih.active ∙ k.0;
      waiting = ih.waiting ∙ k.1;
      waiting_cb = ih.waiting_cb ∙ k.2;
      told = ih.told ∙ k.3;
    }

-- The round of the loop that finds a byte, and the one that does not.
pub rx_loop_some :
    (s : Stdin) (a : Bool) (ws : List Wake) (c : ℕ) (r : List ℕ)
    → (read_available s 1).0 ≡ c ∷ r
    → rx_loop s a ws ≡ got a c (read_available s 1).1 ws
unfolding rx_loop
rx_loop_some s a [] c r e = ground arith
rx_loop_some s a (w ∷ ws) c r e = ground arith

-- The state in which the loop waits.
abbrev pub announce : Stdin → Bool → Stdin
announce s a = if a then (read_available s 1).1 else set_waiting (read_available s 1).1 true

pub rx_loop_none :
    (s : Stdin) (a : Bool)
    → (read_available s 1).0 ≡ []
    → rx_loop s a [] ≡ (blocked, announce s a, [])
unfolding rx_loop
rx_loop_none s a e = ground arith

pub rx_loop_wait :
    (s : Stdin) (a : Bool) (w : Wake) (ws : List Wake)
    → (read_available s 1).0 ≡ []
    → rx_loop s a (w ∷ ws) ≡ (
        if w.raises
        then (raised, act (announce s a) w.actions, ws)
        else rx_loop (act (announce s a) w.actions) true ws)
unfolding rx_loop
rx_loop_wait s a w ws e = ground arith

-- `stdin_set_waiting` and `mp_android_stdin_read_available` beside what they are for.
pub set_waiting-kept :
    (s : Stdin) (w : Bool)
    → (contents (set_waiting s w) ≡ contents s)
      × (IsValid s → IsValid (set_waiting s w))
      × ((set_waiting s w).script_active ≡ s.script_active)
      × ((set_waiting s w).waiting_cb ≡ s.waiting_cb)
      × ((set_waiting s w).waiting ≡ w)
unfolding set_waiting contents
set_waiting-kept s w = (ground arith, λ v. ground arith, ground arith, ground arith, ground arith)

-- With a callback, it is called when the flag changes.
pub set_waiting-told :
    (s : Stdin) (w : Bool)
    → s.waiting_cb ≡ true
    → s.waiting ≡ not w
    → (set_waiting s w).told ≡ s.told ++ w ∷ []
unfolding set_waiting
set_waiting-told s true cb e = ground arith
set_waiting-told s false cb e = ground arith

pub read-kept :
    (s : Stdin) (n : ℕ)
    → ((read_available s n).1.script_active ≡ s.script_active)
      × ((read_available s n).1.waiting ≡ s.waiting)
      × ((read_available s n).1.waiting_cb ≡ s.waiting_cb)
      × ((read_available s n).1.told ≡ s.told)
unfolding read_available
read-kept s n = (refl, refl, refl, refl)

pub record Ready (s : Stdin) (a : Bool) : Type 0 where
  pub list : contents (announce s a) ≡ drop 1 (contents s)
  pub valid : IsValid (announce s a)
  pub active : (announce s a).script_active ≡ s.script_active
  pub waiting_cb : (announce s a).waiting_cb ≡ s.waiting_cb

pub announce-Ready : (s : Stdin) (a : Bool) → IsValid s → Ready s a
announce-Ready s true v =
    let r = read_refines s 1 v in
    let k = read-kept s 1 in record { list = r.1; valid = r.2; active = k.0; waiting_cb = k.2 }
announce-Ready s false v =
    let r = read_refines s 1 v in
    let k = read-kept s 1 in
    let w = set_waiting-kept (read_available s 1).1 true in
    record { list = w.0 ∙ r.1; valid = w.1 r.2; active = w.2 ∙ k.0; waiting_cb = w.3 ∙ k.2 }
