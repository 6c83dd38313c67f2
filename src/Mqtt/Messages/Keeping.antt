-- ===== src/Mqtt/Messages/Keeping.antt =====
-- Polling for messages keeps the state in order, and reads no freed or null node where the client stays open.
use upy_android.Prelude.{
  ℕ, zero, suc, ◌+◌, ◌≡◌, refl, ap, ◌∙◌, Bool, true, false, Option, none, some, List, ◌∷◌, either,
  Option-cases, inl, inr,
}
use upy_android.Prelude.Raise.{Outcome, returned, raised, Exn, pending, os_error, einval}
use upy_android.Mqtt.{Obj, World, Client, called, close}
use upy_android.Mqtt.Inv.{Inv, Fine, FineState, live, node_ref, used_Inv, close-Fine}
use upy_android.Mqtt.Calls.{Answer, call_failed, answered, use_ref, is_none}
use upy_android.Mqtt.Calls.Keeping.{use_ref-Fine}
use upy_android.Mqtt.Messages.{
  Message, Callback, call, call_with, dispatch, poll_node, poll_and_dispatch, ignore, check_msg,
  Round, Wait, waiting, bad_node, ended, after_poll, go_on, wait_loop, wait_msg,
}

-- A callback is called with the state in order.
called_Inv :
    (f : Obj) (topic payload : List ℕ) (w : World)
    → Inv w
    → Inv (record w { log = called f topic payload ∷ w.log })
unfolding live
called_Inv f topic payload w v = record {
  listed = v.listed;
  own = v.own;
  distinct = v.distinct;
  alive = rw v.alive refl;
}

call_with-Inv : (w : World) (x : Option Exn) → Inv w → Inv (call_with w x).1
call_with-Inv w none v = v
call_with-Inv w (some e) v = v

call-Inv :
    (callback : Callback) (o : Option Obj) (m : Message) (w : World)
    → Inv w
    → Inv (call callback o m w).1
call-Inv callback none (topic, payload) w v = v
call-Inv callback (some f) (topic, payload) w v =
    call_with-Inv _ (callback f topic payload) (called_Inv f topic payload w v)

dispatch-Fine :
    (callback : Callback) (self : ℕ) (o : Option (Outcome (Option Message) × World))
    → Fine o
    → Fine (dispatch callback self o)
dispatch-Fine callback self none f = f
dispatch-Fine callback self (some (raised e, w)) f = f
dispatch-Fine callback self (some (returned none, w)) f = f
dispatch-Fine callback self (some (returned (some m), w)) f =
    call-Inv callback (w.clients self).callback m w f

poll_node-Fine :
    {A : Type 0} (self a : ℕ) (answer : Answer A) (w : World)
    → Inv w
    → (w.clients self).node ≡ some a
    → Fine (poll_node answer w (w.clients self).node)
poll_node-Fine self a answer w v e =
    let (r, (g, h)) = node_ref w self a v e in
    rw e (rw g (use_ref-Fine answer w r (used_Inv w r v h)))

-- A client that is open is polled without reading a bad node, and the state stays in order.
poll_and_dispatch-Fine :
    (callback : Callback) (self a : ℕ) (answer : Answer (Option Message)) (w : World)
    → Inv w
    → (w.clients self).node ≡ some a
    → Fine (poll_and_dispatch callback self answer w)
unfolding poll_and_dispatch
poll_and_dispatch-Fine callback self a answer w v e =
    dispatch-Fine callback self _ (poll_node-Fine self a answer w v e)

-- A poll leaves the clients as they are.
abbrev Same : {A : Type 0} → World → Option (Outcome A × World) → Type 0
Same w none = Unit {0}
Same w (some (r, w')) = w'.clients ≡ w.clients

use_ref-Same :
    {A : Type 0} (answer : Answer A) (w : World) (o : Option ℕ) → Same w (use_ref answer w o)
use_ref-Same answer w none = tt
use_ref-Same call_failed w (some r) = refl
use_ref-Same (answered a) w (some r) = refl

poll_node-Same :
    {A : Type 0} (answer : Answer A) (w : World) (o : Option ℕ) → Same w (poll_node answer w o)
poll_node-Same answer w none = tt
poll_node-Same answer w (some node) = use_ref-Same answer w _

call_with-Same :
    (w u : World) (x : Option Exn) → u.clients ≡ w.clients → Same w (some (call_with u x))
call_with-Same w u none h = h
call_with-Same w u (some e) h = h

call-Same :
    (callback : Callback) (o : Option Obj) (m : Message) (w u : World)
    → u.clients ≡ w.clients
    → Same w (some (call callback o m u))
call-Same callback none (topic, payload) w u h = h
call-Same callback (some f) (topic, payload) w u h = call_with-Same w _ (callback f topic payload) h

dispatch-Same :
    (callback : Callback) (self : ℕ) (w : World) (o : Option (Outcome (Option Message) × World))
    → Same w o
    → Same w (dispatch callback self o)
dispatch-Same callback self w none h = tt
dispatch-Same callback self w (some (raised e, u)) h = h
dispatch-Same callback self w (some (returned none, u)) h = h
dispatch-Same callback self w (some (returned (some m), u)) h =
    call-Same callback (u.clients self).callback m w u h

poll_and_dispatch-Same :
    (callback : Callback) (self : ℕ) (answer : Answer (Option Message)) (w : World)
    → Same w (poll_and_dispatch callback self answer w)
unfolding poll_and_dispatch
poll_and_dispatch-Same callback self answer w =
    dispatch-Same callback self w _ (poll_node-Same answer w _)

ignore-Fine : (o : Option (Outcome Bool × World)) → Fine o → Fine (ignore o)
ignore-Fine none f = f
ignore-Fine (some (raised e, w)) f = f
ignore-Fine (some (returned b, w)) f = f

pub check_msg-Fine :
    (callback : Callback) (self : ℕ) (answer : Answer (Option Message)) (w : World)
    → Inv w
    → Fine (check_msg callback self answer w)
unfolding check_msg
check_msg-Fine callback self answer w v = elim (Option-cases (w.clients self).node) [
  | inl shut ↦ rw shut v
  | inr (a, e) ↦ rw e (ignore-Fine _ (poll_and_dispatch-Fine callback self a answer w v e))
]

-- A wait that ends, or goes on, leaves the state in order.
abbrev pub FineWait : Wait → Type 0
FineWait (waiting w) = Inv w
FineWait bad_node = Unit {0}
FineWait (ended r w) = Inv w

-- The same, and the wait has read no bad node.
abbrev pub SafeWait : Wait → Type 0
SafeWait (waiting w) = Inv w
SafeWait bad_node = ⊥
SafeWait (ended r w) = Inv w

abbrev KeptIn : World → Option (Outcome Bool × World) → Type 0
KeptIn w o = Fine o × Same w o

module _ (callback : Callback) (self : ℕ) (rounds : ℕ → Round) where
  go_on-Fine :
      (rest : World → Wait) (o : Option World)
      → FineState o
      → ((w : World) → Inv w → FineWait (rest w))
      → FineWait (go_on rest o)
  go_on-Fine rest none f g = tt
  go_on-Fine rest (some w) f g = g w f

  after_poll-Fine :
      (round : Round) (rest : World → Wait) (o : Option (Outcome Bool × World))
      → Fine o
      → ((w : World) → Inv w → FineWait (rest w))
      → FineWait (after_poll round self rest o)
  after_poll-Fine round rest none f g = tt
  after_poll-Fine round rest (some (raised e, w)) f g = f
  after_poll-Fine round rest (some (returned true, w)) f g = f
  after_poll-Fine round rest (some (returned false, w)) f g =
      either FineWait round.interrupted (ended (raised pending) w) _ f (
        either (λ o. FineWait (go_on rest o)) round.closes (close self w) (some w)
          (go_on-Fine rest (close self w) (close-Fine self w f) g) (g w f))

  wait_loop-Fine : (k n : ℕ) (w : World) → Inv w → FineWait (wait_loop callback self rounds k n w)
  unfolding wait_loop poll_and_dispatch
  wait_loop-Fine k zero w v = v
  wait_loop-Fine k (suc n) w v = elim (Option-cases (w.clients self).node) [
    | inl null ↦ rw null tt
    | inr (a, e) ↦
        after_poll-Fine (rounds k) _ _
          (poll_and_dispatch-Fine callback self a (rounds k).answer w v e)
          (λ w1 v1. wait_loop-Fine (k + 1) n w1 v1)
  ]

  pub wait_msg-Fine :
      (fuel : ℕ) (w : World) → Inv w → FineWait (wait_msg callback self rounds fuel w)
  unfolding wait_msg
  wait_msg-Fine fuel w v =
      either FineWait (is_none (w.clients self).node) (ended (raised (os_error einval)) w) _ v
        (wait_loop-Fine 0 fuel w v)

  module _ (open_ : (k : ℕ) → (rounds k).closes ≡ false) where
    after_poll-Safe :
        (k : ℕ) (rest : World → Wait) (w : World) (o : Option (Outcome Bool × World))
        → Fine o
        → Same w o
        → ((u : World) → Inv u → u.clients ≡ w.clients → SafeWait (rest u))
        → SafeWait (after_poll (rounds k) self rest o)
    after_poll-Safe k rest w none f s g = f
    after_poll-Safe k rest w (some (raised e, u)) f s g = f
    after_poll-Safe k rest w (some (returned true, u)) f s g = f
    after_poll-Safe k rest w (some (returned false, u)) f s g =
        either SafeWait (rounds k).interrupted (ended (raised pending) u) _ f
          (rw (open_ k) (g u f s))

    wait_loop-Safe :
        (k n a : ℕ) (w : World)
        → Inv w
        → (w.clients self).node ≡ some a
        → SafeWait (wait_loop callback self rounds k n w)
    unfolding wait_loop
    wait_loop-Safe k zero a w v e = v
    wait_loop-Safe k (suc n) a w v e =
        after_poll-Safe k _ w _ (poll_and_dispatch-Fine callback self a (rounds k).answer w v e)
          (poll_and_dispatch-Same callback self (rounds k).answer w)
          (λ u v1 s. wait_loop-Safe (k + 1) n a u v1 (ap (λ (f : ℕ → Client). (f self).node) s ∙ e))

    pub wait_msg-Safe :
        (fuel : ℕ) (w : World) → Inv w → SafeWait (wait_msg callback self rounds fuel w)
    unfolding wait_msg
    wait_msg-Safe fuel w v = elim (Option-cases (w.clients self).node) [
      | inl shut ↦ rw shut v
      | inr (a, e) ↦ rw e (wait_loop-Safe 0 fuel a w v e)
    ]
