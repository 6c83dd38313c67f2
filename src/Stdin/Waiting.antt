-- ===== src/Stdin/Waiting.antt =====
-- What the app is told while a read blocks.
use upy_android.Prelude.{
  none, ◌&&◌, ℕ, ◌≡◌, refl, sym, ap, ◌∙◌, Bool, true, false, List, [], ◌∷◌, ◌++◌, arith, take,
  append-nil, append_assoc, if◌then◌else◌,
}
use upy_android.Stdin.{
  push, load, Stdin, read_available, script_active, set_waiting, act, Wake, Outcome, returns,
  raised, rx_loop, rx_chr,
}
use upy_android.Stdin.Fifo.{IsValid, contents, read_refines}
use upy_android.Stdin.Steps.{
  act-Acted, announce, announce-Ready, rx_loop_some, rx_loop_none, rx_loop_wait, set_waiting-told,
  set_waiting-kept, read-kept,
}

-- The end of a blocking read, as the app is told it.
abbrev pub ends : Outcome ℕ → List Bool
ends (returns c) = false ∷ []
ends _ = []

abbrev pub still_waits : Outcome ℕ → Bool
still_waits (returns c) = false
still_waits _ = true

-- What the app is told of a read that finds the bytes `xs` and ends as `o`.
abbrev pub telling : List ℕ → Outcome ℕ → List Bool
telling [] o = true ∷ ends o
telling (c ∷ xs) o = []

abbrev pub waits_after : List ℕ → Outcome ℕ → Bool
waits_after [] o = still_waits o
waits_after (c ∷ xs) o = false

-- A read that was announced when `told` had been said.
abbrev Tells : List Bool → Outcome ℕ × Stdin × List Wake → Type 0
Tells told r = (r.1.told ≡ told ++ ends r.0) × (r.1.waiting ≡ still_waits r.0)

if-Tells :
    (b : Bool) (told : List Bool) (x y : Outcome ℕ × Stdin × List Wake)
    → Tells told x
    → Tells told y
    → Tells told (if b then x else y)
if-Tells true told x y p q = p
if-Tells false told x y p q = q

if-told :
    (b : Bool) (told : List Bool) (x y : Outcome ℕ × Stdin × List Wake)
    → Tells (told ++ true ∷ []) x
    → Tells (told ++ true ∷ []) y
    → let r : Outcome ℕ × Stdin × List Wake = if b then x else y in
      (r.1.told ≡ told ++ (true ∷ ends r.0)) × (r.1.waiting ≡ still_waits r.0)
if-told b told x y p q =
    let t = if-Tells b (told ++ true ∷ []) x y p q in (t.0 ∙ append_assoc told (true ∷ []) _, t.1)

-- Once the read is announced.
rx_loop-Told :
    (ws : List Wake) (s : Stdin) (xs : List ℕ)
    → contents s ≡ xs
    → IsValid s
    → s.waiting ≡ true
    → s.waiting_cb ≡ true
    → Tells s.told (rx_loop s true ws)
rx_loop-Told ws s (c ∷ xs) e v w cb =
    let r = read_refines s 1 v in
    let k = read-kept s 1 in
    let s0 = (read_available s 1).1 in
    rw (rx_loop_some s true ws c [] (r.0 ∙ ap (take 1) e)) (
      set_waiting-told s0 false (k.2 ∙ cb) (k.1 ∙ w) ∙ ap (λ t. t ++ false ∷ []) k.3,
      (set_waiting-kept s0 false).4,
    )
rx_loop-Told [] s [] e v w cb =
    let r = read_refines s 1 v in
    let k = read-kept s 1 in
    rw (rx_loop_none s true (r.0 ∙ ap (take 1) e)) (k.3 ∙ sym (append-nil s.told), k.1 ∙ w)
rx_loop-Told (w ∷ ws) s [] e v on cb =
    let r = read_refines s 1 v in
    let k = read-kept s 1 in
    let a = act-Acted (read_available s 1).1 w.actions r.2 in
    let s2 = act (read_available s 1).1 w.actions in
    let ih =
      rx_loop-Told ws s2 (contents s2) refl a.valid (a.waiting ∙ k.1 ∙ on)
        (a.waiting_cb ∙ k.2 ∙ cb) in
    rw (rx_loop_wait s true w ws (r.0 ∙ ap (take 1) e)) (
      if-Tells w.raises s.told (raised, s2, ws) (rx_loop s2 true ws)
        (a.told ∙ k.3 ∙ sym (append-nil s.told), a.waiting ∙ k.1 ∙ on)
        (ih.0 ∙ ap (λ t. t ++ ends (rx_loop s2 true ws).0) (a.told ∙ k.3), ih.1))

-- When a script ends, its unread input is gone, no read counts as waiting, the app is told so if one
-- did, and further input is refused until a script runs.
pub script_end :
    (s : Stdin) (bytes : List ℕ)
    → let s' = script_active s false in
      (contents s' ≡ [])
      × (s'.waiting ≡ false)
      × (s'.told ≡ (if s.waiting && s.waiting_cb then s.told ++ false ∷ [] else s.told))
      × (push s' bytes ≡ (none, s'))
unfolding script_active set_waiting contents load push
script_end s bytes = ground arith

-- With a callback set and no wait announced, a read tells the app nothing if a byte is there. Else it
-- tells once that it waits, however many wakes it takes, and once that it no longer does when it
-- returns a byte; after an exception the wait still counts, until the script ends: then no read counts as
-- waiting, and the app is told so if one did.
pub rx_chr-told :
    (s : Stdin) (ws : List Wake)
    → IsValid s
    → s.waiting_cb ≡ true
    → s.waiting ≡ false
    → let r = rx_chr s ws in
      (r.1.told ≡ s.told ++ telling (contents s) r.0)
      × (r.1.waiting ≡ waits_after (contents s) r.0)
      × ((script_active r.1 false).waiting ≡ false)
      × ((script_active r.1 false).told
          ≡ (if r.1.waiting && r.1.waiting_cb then r.1.told ++ false ∷ [] else r.1.told))
unfolding rx_chr
rx_chr-told s ws v cb off =
    let (told, waits) = go ws (contents s) refl in
    let (empty, quiet, last, refused) = script_end (rx_chr s ws).1 [] in (told, waits, quiet, last)
  where
    k :
        ((read_available s 1).1.script_active ≡ s.script_active)
        × ((read_available s 1).1.waiting ≡ s.waiting)
        × ((read_available s 1).1.waiting_cb ≡ s.waiting_cb)
        × ((read_available s 1).1.told ≡ s.told)
    k = read-kept s 1

    said : (announce s false).told ≡ s.told ++ true ∷ []
    said =
        set_waiting-told (read_available s 1).1 true (k.2 ∙ cb) (k.1 ∙ off)
        ∙ ap (λ t. t ++ true ∷ []) k.3

    go :
        (ws : List Wake) (xs : List ℕ)
        → contents s ≡ xs
        → ((rx_loop s false ws).1.told ≡ s.told ++ telling xs (rx_loop s false ws).0)
          × ((rx_loop s false ws).1.waiting ≡ waits_after xs (rx_loop s false ws).0)
    go ws (c ∷ xs) e =
        rw (rx_loop_some s false ws c [] ((read_refines s 1 v).0 ∙ ap (take 1) e))
          (k.3 ∙ sym (append-nil s.told), k.1 ∙ off)
    go [] [] e =
        rw (rx_loop_none s false ((read_refines s 1 v).0 ∙ ap (take 1) e))
          (said, (set_waiting-kept (read_available s 1).1 true).4)
    go (w ∷ ws) [] e =
        let m = announce-Ready s false v in
        let a = act-Acted (announce s false) w.actions m.valid in
        let s2 = act (announce s false) w.actions in
        let on = a.waiting ∙ (set_waiting-kept (read_available s 1).1 true).4 in
        let ih =
          rx_loop-Told ws s2 (contents s2) refl a.valid on (a.waiting_cb ∙ m.waiting_cb ∙ cb) in
        let start = a.told ∙ said in
        rw (rx_loop_wait s false w ws ((read_refines s 1 v).0 ∙ ap (take 1) e)) (
          if-told w.raises s.told (raised, s2, ws) (rx_loop s2 true ws)
            (start ∙ sym (append-nil _), on)
            (ih.0 ∙ ap (λ t. t ++ ends (rx_loop s2 true ws).0) start, ih.1))
