-- ===== src/Mqtt/Moves.antt =====
-- The MQTT clients over any sequence of calls, up to the reset that deletes what is left.
use upy_android.Prelude.{ℕ, ◌≡◌, refl, Bool, false, Option, none, some, List, [], arith}
use mathlib.Core.Path.{subst}
use upy_android.Prelude.Ints.{ℤ, pos}
use upy_android.Prelude.Raise.{Outcome}
use upy_android.Mqtt.{Obj, Client, World, Args, Answers, make_new, close, close_all}
use upy_android.Mqtt.Registry.{refs, no_nodes}
use upy_android.Mqtt.Calls.{
  Answer, Connect, set_callback, set_last_will, connect, disconnect, ping, publish, subscribe,
  unsubscribe,
}
use upy_android.Mqtt.Calls.Keeping.{
  connect-Fine, disconnect-Fine, ping-Fine, publish-Fine, subscribe-Fine, set_callback-Inv,
  set_last_will-Inv,
}
use upy_android.Mqtt.Messages.{Message, Callback, Round, ended, check_msg, wait_msg}
use upy_android.Mqtt.Messages.Keeping.{check_msg-Fine, FineWait, wait_msg-Fine}
use upy_android.Mqtt.Making.{IsFresh, make_new-Leaves}
use upy_android.Mqtt.Deleting.{close_all_lem}
use upy_android.Mqtt.Inv.{Inv, Fine, FineState, live, close-Fine}

-- An object that is no client, or a client that is closed.
abbrev pub no_client : Client
no_client = record {
  node = none;
  callback = none;
  user_obj = none;
  password_obj = none;
  keepalive = pos 0;
  lw_topic = none;
  lw_msg = none;
  lw_qos = pos 0;
  lw_retain = false;
}

-- `mqtt_close_all` and the end of the interpreter, whose heap has all the objects.
unfoldable pub reset : World → World
unfolding close_all
reset w = record (close_all w) { clients = λ i. no_client }

-- One call of a script, or the reset.
pub data Moves : World → World → Type 1 where
  made :
      {w : World} (args : Args) (answers : Answers)
      → IsFresh answers w
      → Moves w (make_new args answers w).1
  callback_set : {w : World} (self : ℕ) (f : Option Obj) → Moves w (set_callback self f w).1
  will_set :
      {w : World} (is_true : ℕ → Bool) (self : ℕ) (topic msg : Obj) (retain : Bool) (qos : ℤ)
      → Moves w (set_last_will is_true self topic msg retain qos w).1
  connected :
      {w w' : World} (self : ℕ) (clean : Bool) (timeout : ℕ) (bridge : Connect → Answer Bool)
      (r : Outcome Bool)
      → connect self clean timeout bridge w ≡ some (r, w')
      → Moves w w'
  disconnected :
      {w w' : World} (self : ℕ) (answer : Answer (Unit {0})) (r : Outcome (Unit {0}))
      → disconnect self answer w ≡ some (r, w')
      → Moves w w'
  pinged :
      {w w' : World} (self : ℕ) (answer : Answer Bool) (r : Outcome (Unit {0}))
      → ping self answer w ≡ some (r, w')
      → Moves w w'
  published :
      {w w' : World} (self : ℕ) (topic msg : Obj) (bridge : List ℕ → List ℕ → Answer (Unit {0}))
      (r : Outcome (Unit {0}))
      → publish self topic msg bridge w ≡ some (r, w')
      → Moves w w'
  subscribed :
      {w w' : World} (self : ℕ) (topic : Obj) (bridge : List ℕ → Answer (Unit {0}))
      (r : Outcome (Unit {0}))
      → subscribe self topic bridge w ≡ some (r, w')
      → Moves w w'
  unsubscribed :
      {w w' : World} (self : ℕ) (topic : Obj) (bridge : List ℕ → Answer (Unit {0}))
      (r : Outcome (Unit {0}))
      → unsubscribe self topic bridge w ≡ some (r, w')
      → Moves w w'
  checked :
      {w w' : World} (callback : Callback) (self : ℕ) (answer : Answer (Option Message))
      (r : Outcome (Unit {0}))
      → check_msg callback self answer w ≡ some (r, w')
      → Moves w w'
  waited :
      {w w' : World} (callback : Callback) (self : ℕ) (rounds : ℕ → Round) (fuel : ℕ)
      (r : Outcome (Unit {0}))
      → wait_msg callback self rounds fuel w ≡ ended r w'
      → Moves w w'
  was_closed : {w w' : World} (self : ℕ) → close self w ≡ some w' → Moves w w'
  was_reset : {w : World} → Moves w (reset w)

abbrev pub start : World
start = record { clients = λ i. no_client; connections = []; log = [] }

pub data Reached : World → Type 1 where
  at_start : Reached start
  moved : {w w' : World} → Reached w → Moves w w' → Reached w'

left_Inv :
    {A : Type 0} {o : Option (Outcome A × World)} {r : Outcome A} {w : World}
    → Fine o
    → o ≡ some (r, w)
    → Inv w
left_Inv f e = subst Fine e f

pub reset-Inv : (w : World) → Inv w → Inv (reset w)
unfolding reset refs close_all
reset-Inv w v = record {
  listed = λ i a p. ground (arith, p);
  own = λ i j a p. ground (arith, p);
  distinct = no_nodes;
  alive = close_all_lem w v;
}

moves_Inv : {w w' : World} → Moves w w' → Inv w → Inv w'
moves_Inv (made args answers h) v = (make_new-Leaves args answers _ v h).inv
moves_Inv (callback_set self f) v = set_callback-Inv self f _ v
moves_Inv (will_set is_true self topic msg retain qos) v =
    set_last_will-Inv is_true self topic msg retain qos _ v
moves_Inv (connected self clean timeout bridge r e) v =
    left_Inv (connect-Fine self clean timeout bridge _ v) e
moves_Inv (disconnected self answer r e) v = left_Inv (disconnect-Fine self answer _ v) e
moves_Inv (pinged self answer r e) v = left_Inv (ping-Fine self answer _ v) e
moves_Inv (published self topic msg bridge r e) v =
    left_Inv (publish-Fine self topic msg bridge _ v) e
moves_Inv (subscribed self topic bridge r e) v = left_Inv (subscribe-Fine self topic bridge _ v).0 e
moves_Inv (unsubscribed self topic bridge r e) v =
    left_Inv (subscribe-Fine self topic bridge _ v).1 e
moves_Inv (checked callback self answer r e) v =
    left_Inv (check_msg-Fine callback self answer _ v) e
moves_Inv (waited callback self rounds fuel r e) v =
    subst FineWait e (wait_msg-Fine callback self rounds fuel _ v)
moves_Inv (was_closed self e) v = subst FineState e (close-Fine self _ v)
moves_Inv was_reset v = reset-Inv _ v

start_Inv : Inv start
unfolding live refs
start_Inv = record {
  listed = λ i a p. ground (arith, p);
  own = λ i j a p. ground (arith, p);
  distinct = no_nodes;
  alive = refl;
}

pub always_Inv : {w : World} → Reached w → Inv w
always_Inv at_start = start_Inv
always_Inv (moved r m) = moves_Inv m (always_Inv r)
