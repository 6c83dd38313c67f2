-- ===== src/Mqtt/Calls.antt =====
-- app/src/main/cpp/mqtt_module.cpp: the methods of a client that make one call of the bridge.
pub mod Keeping
use upy_android.Prelude.{
  ℕ, Bool, true, false, Option, none, some, List, [], ◌∷◌, ◌||◌, not, if◌then◌else◌,
}
use upy_android.Prelude.Ints.{ℤ, pos, less}
use upy_android.Prelude.Words.{update}
use upy_android.Prelude.Raise.{
  Outcome, returned, raised, Exn, os_error, einval, eio, enotconn, value_error, type_error,
}
use upy_android.Mqtt.{Obj, str, bytes, other, World, Client, used, global_ref, get_str, get_buffer}

-- `mqtt_client_set_callback`
pub set_callback : ℕ → Option Obj → World → Outcome (Unit {0}) × World
set_callback self f w = (
  returned tt,
  record w { clients = update w.clients self (record (w.clients self) { callback = f }) },
)

-- `mp_obj_is_true` of a topic; `is_true` gives it for objects that are not strings.
abbrev pub truth : (ℕ → Bool) → Obj → Bool
truth is_true (str []) = false
truth is_true (str (c ∷ cs)) = true
truth is_true (bytes []) = false
truth is_true (bytes (b ∷ bs)) = true
truth is_true (other o) = is_true o

abbrev pub is_none {ℓ} : {A : Type ℓ} → Option A → Bool
is_none none = true
is_none (some a) = false

-- `mqtt_client_set_last_will`
pub set_last_will : (ℕ → Bool) → ℕ → Obj → Obj → Bool → ℤ → World → Outcome (Unit {0}) × World
set_last_will is_true self topic msg retain qos w =
    if less qos (pos 0) || less (pos 2) qos
    then (raised value_error, w)
    else if not (truth is_true topic)
    then (raised value_error, w)
    else if is_none (get_str topic) || is_none (get_buffer msg)
    then (raised type_error, w)
    else (
      returned tt,
      record w {
        clients = update w.clients self (record (w.clients self) {
          lw_topic = some topic;
          lw_msg = some msg;
          lw_qos = qos;
          lw_retain = retain;
        });
      },
    )

-- How a call of the bridge ends, and what it is given besides the reference.
pub data Answer (A : Type 0) : Type 0 where
  call_failed : Answer A
  answered : A → Answer A

-- A call of the bridge with the reference of a client; `none` where its node has been freed.
abbrev pub use_ref : {A : Type 0} → Answer A → World → Option ℕ → Option (Outcome A × World)
use_ref answer w none = none
use_ref call_failed w (some ref) = some (raised (os_error eio), record w { log = used ref ∷ w.log })
use_ref (answered a) w (some ref) = some (returned a, record w { log = used ref ∷ w.log })

-- The same for a client that must not be closed.
abbrev pub use_node : {A : Type 0} → Answer A → World → Option ℕ → Option (Outcome A × World)
use_node answer w none = some (raised (os_error einval), w)
use_node answer w (some node) = use_ref answer w (global_ref node w.connections)

abbrev pub use_client : {A : Type 0} → ℕ → Answer A → World → Option (Outcome A × World)
use_client self answer w = use_node answer w (w.clients self).node

-- What `mqtt_bridge_connect` is given besides the reference; the timeout is in milliseconds.
pub record Connect : Type 0 where
  pub username : Option (List ℕ)
  pub password : Option (List ℕ)
  pub clean_session : Bool
  pub keepalive : ℤ
  pub will_topic : Option (List ℕ)
  pub will_msg : Option (List ℕ)
  pub will_qos : ℤ
  pub will_retain : Bool
  pub timeout_ms : ℕ

-- An object that is left out, or must convert: `none` where the conversion raises.
abbrev pub convert : (Obj → Option (List ℕ)) → Option Obj → Option (Option (List ℕ))
convert f none = some none
convert f (some o) = elim (f o) [ none ↦ none | some cs ↦ some (some cs) ]

-- The message of the will is only read when there is a topic.
abbrev pub will_buffer : Client → Option (Option (List ℕ))
will_buffer c = elim c.lw_topic [ none ↦ some none | some t ↦ convert get_buffer c.lw_msg ]

abbrev pub or_type_error :
    {A B : Type 0}
    → Option A
    → World
    → (A → Option (Outcome B × World))
    → Option (Outcome B × World)
or_type_error none w k = some (raised type_error, w)
or_type_error (some a) w k = k a

-- `raise_if_closed`
abbrev pub unless_closed :
    {A : Type 0} → ℕ → World → Option (Outcome A × World) → Option (Outcome A × World)
unless_closed self w rest =
    if is_none (w.clients self).node then some (raised (os_error einval), w) else rest

-- `mqtt_client_connect`, with the timeout as the bridge gets it; the value is whether there was a session.
pub connect : ℕ → Bool → ℕ → (Connect → Answer Bool) → World → Option (Outcome Bool × World)
connect self clean_session timeout_ms bridge w =
    let c = w.clients self in
    unless_closed self w (
      or_type_error (convert get_str c.user_obj) w (λ username.
        or_type_error (convert get_buffer c.password_obj) w (λ password.
          or_type_error (convert get_str c.lw_topic) w (λ will_topic.
            or_type_error (will_buffer c) w (λ will_msg.
              use_client self
                (bridge (record {
                  username = username;
                  password = password;
                  clean_session = clean_session;
                  keepalive = c.keepalive;
                  will_topic = will_topic;
                  will_msg = will_msg;
                  will_qos = c.lw_qos;
                  will_retain = c.lw_retain;
                  timeout_ms = timeout_ms;
                }))
                w)))))

-- `mqtt_client_disconnect`
pub disconnect : ℕ → Answer (Unit {0}) → World → Option (Outcome (Unit {0}) × World)
disconnect self answer w =
    if is_none (w.clients self).node then some (returned tt, w) else use_client self answer w

abbrev pub not_connected : Option (Outcome Bool × World) → Option (Outcome (Unit {0}) × World)
not_connected none = none
not_connected (some (raised e, w)) = some (raised e, w)
not_connected (some (returned true, w)) = some (returned tt, w)
not_connected (some (returned false, w)) = some (raised (os_error enotconn), w)

-- `mqtt_client_ping`; the bridge answers whether the client is connected.
pub ping : ℕ → Answer Bool → World → Option (Outcome (Unit {0}) × World)
ping self answer w = not_connected (use_client self answer w)

-- `mqtt_client_publish`
pub publish :
    ℕ
    → Obj
    → Obj
    → (List ℕ → List ℕ → Answer (Unit {0}))
    → World
    → Option (Outcome (Unit {0}) × World)
publish self topic msg bridge w = unless_closed self w (
    or_type_error (get_str topic) w
      (λ topic. or_type_error (get_buffer msg) w (λ msg. use_client self (bridge topic msg) w)))

-- `mqtt_client_subscribe`
pub subscribe : ℕ → Obj → (List ℕ → Answer (Unit {0})) → World → Option (Outcome (Unit {0}) × World)
subscribe self topic bridge w =
    unless_closed self w
      (or_type_error (get_str topic) w (λ topic. use_client self (bridge topic) w))

-- `mqtt_client_unsubscribe`
pub unsubscribe :
    ℕ → Obj → (List ℕ → Answer (Unit {0})) → World → Option (Outcome (Unit {0}) × World)
unsubscribe self topic bridge w =
    unless_closed self w
      (or_type_error (get_str topic) w (λ topic. use_client self (bridge topic) w))
