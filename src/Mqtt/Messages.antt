-- ===== src/Mqtt/Messages.antt =====
-- app/src/main/cpp/mqtt_module.cpp: the messages that a client gets, and its callback.
pub mod Keeping
use upy_android.Prelude.{
  ℕ, zero, suc, ◌+◌, Bool, true, false, Option, none, some, List, ◌∷◌, if◌then◌else◌,
}
use upy_android.Prelude.Raise.{Outcome, returned, raised, Exn, pending, os_error, einval}
use upy_android.Mqtt.{Obj, World, called, global_ref, close}
use upy_android.Mqtt.Calls.{Answer, use_ref, is_none, unless_closed}

-- A message: its topic and its payload.
abbrev pub Message : Type 0
Message = List ℕ × List ℕ

-- What the callback does with a message: `none` where it returns.
abbrev pub Callback : Type 0
Callback = Obj → List ℕ → List ℕ → Option Exn

abbrev pub call_with : World → Option Exn → Outcome Bool × World
call_with w none = (returned true, w)
call_with w (some e) = (raised e, w)

-- The call of the callback, where there is one.
abbrev pub call : Callback → Option Obj → Message → World → Outcome Bool × World
call callback none (topic, payload) w = (returned true, w)
call callback (some f) (topic, payload) w =
    call_with (record w { log = called f topic payload ∷ w.log }) (callback f topic payload)

abbrev pub dispatch :
    Callback → ℕ → Option (Outcome (Option Message) × World) → Option (Outcome Bool × World)
dispatch callback self none = none
dispatch callback self (some (raised e, w)) = some (raised e, w)
dispatch callback self (some (returned none, w)) = some (returned false, w)
dispatch callback self (some (returned (some m), w)) =
    some (call callback (w.clients self).callback m w)

-- A call of the bridge with the reference of a client, which is not asked whether it is closed; `none` where its
-- node has been freed, or is null.
abbrev pub poll_node : {A : Type 0} → Answer A → World → Option ℕ → Option (Outcome A × World)
poll_node answer w none = none
poll_node answer w (some node) = use_ref answer w (global_ref node w.connections)

-- `poll_and_dispatch`, at the answer of the bridge.
unfoldable pub poll_and_dispatch :
    Callback → ℕ → Answer (Option Message) → World → Option (Outcome Bool × World)
poll_and_dispatch callback self answer w =
    dispatch callback self (poll_node answer w (w.clients self).node)

abbrev pub ignore : Option (Outcome Bool × World) → Option (Outcome (Unit {0}) × World)
ignore none = none
ignore (some (raised e, w)) = some (raised e, w)
ignore (some (returned b, w)) = some (returned tt, w)

-- `mqtt_client_check_msg`
pub check_msg : Callback → ℕ → Answer (Option Message) → World → Option (Outcome (Unit {0}) × World)
check_msg callback self answer w =
    unless_closed self w (ignore (poll_and_dispatch callback self answer w))

-- A round of `mqtt_client_wait_msg`: the answer after 250 ms at most, and what `mp_handle_pending` does: whether it
-- raises, and whether a callback that was scheduled closes the client.
pub record Round : Type 0 where
  pub answer : Answer (Option Message)
  pub interrupted : Bool
  pub closes : Bool

-- `waiting` is the state when the fuel is used up; `bad_node` is that a freed or a null node is read.
pub data Wait : Type 0 where
  waiting : World → Wait
  bad_node : Wait
  ended : Outcome (Unit {0}) → World → Wait

-- What `mp_handle_pending` leaves of the state; `none` where a close reads a freed node.
abbrev pub scheduled : Bool → ℕ → World → Option World
scheduled closes self w = if closes then close self w else some w

abbrev pub go_on : (World → Wait) → Option World → Wait
go_on rest none = bad_node
go_on rest (some w) = rest w

-- What follows a poll in the loop; `rest` is the rest of the loop, from a state.
abbrev pub after_poll : Round → ℕ → (World → Wait) → Option (Outcome Bool × World) → Wait
after_poll round self rest none = bad_node
after_poll round self rest (some (raised e, w)) = ended (raised e) w
after_poll round self rest (some (returned true, w)) = ended (returned tt) w
after_poll round self rest (some (returned false, w)) =
    if round.interrupted
    then ended (raised pending) w
    else go_on rest (scheduled round.closes self w)

-- The loop of `mqtt_client_wait_msg`, from round `k` on.
unfoldable pub wait_loop : Callback → ℕ → (ℕ → Round) → ℕ → ℕ → World → Wait
unfolding poll_and_dispatch
wait_loop callback self rounds k zero w = waiting w
wait_loop callback self rounds k (suc n) w =
    after_poll (rounds k) self (λ w1. wait_loop callback self rounds (k + 1) n w1)
      (poll_and_dispatch callback self (rounds k).answer w)

-- `mqtt_client_wait_msg`
unfoldable pub wait_msg : Callback → ℕ → (ℕ → Round) → ℕ → World → Wait
unfolding wait_loop
wait_msg callback self rounds fuel w =
    if is_none (w.clients self).node
    then ended (raised (os_error einval)) w
    else wait_loop callback self rounds 0 fuel w
