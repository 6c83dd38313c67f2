-- ===== src/Mqtt.antt =====
-- app/src/main/cpp/mqtt_module.cpp: the umqtt.simple module, an MQTT client over HiveMQ's library. MqttShim
-- stands behind mqtt_jni_bridge.h: its answers are arguments, and `log` holds what is done with the
-- global references to its clients, the latest first.
pub mod Calls
pub mod Messages
pub mod Inv
pub mod Registry
pub mod Making
pub mod Deleting
pub mod Moves
mod Tests
use upy_android.Prelude.{
  ℕ, ◌+◌, Bool, true, false, Option, none, some, List, [], ◌∷◌, ◌==◌, ◌||◌, not, if◌then◌else◌,
}
use upy_android.Prelude.Ints.{ℤ, pos, negsuc}
use upy_android.Prelude.Words.{update}
use upy_android.Prelude.Raise.{
  Outcome, returned, raised, os_error, einval, not_implemented, type_error, memory_error,
}

-- Python objects, as far as the module looks at them.
pub data Obj : Type 0 where
  str bytes : List ℕ → Obj
  other : ℕ → Obj

-- `MqttHandleNode`, at its address.
pub record Node : Type 0 where
  pub address : ℕ
  pub global_ref : ℕ

-- What is done with a global reference: made by `mqtt_bridge_create`, handed to another call of the bridge,
-- or deleted; and the calls of callbacks.
pub data Event : Type 0 where
  created used deleted : ℕ → Event
  called : Obj → List ℕ → List ℕ → Event

-- `mqtt_client_obj_t`; `none` stands for `mp_const_none` and, as a node, for null.
pub record Client : Type 0 where
  pub node : Option ℕ
  pub callback : Option Obj
  pub user_obj : Option Obj
  pub password_obj : Option Obj
  pub keepalive : ℤ
  pub lw_topic : Option Obj
  pub lw_msg : Option Obj
  pub lw_qos : ℤ
  pub lw_retain : Bool

-- The objects by their addresses, and the list at `g_mqtt_connections`; a node is allocated while it is in
-- the list.
pub record World : Type 0 where
  pub clients : ℕ → Client
  pub connections : List Node
  pub log : List Event

-- `registry_add`
abbrev pub registry_add : ℕ → ℕ → List Node → List Node
registry_add address ref ns = record { address = address; global_ref = ref } ∷ ns

-- `registry_remove`
pub registry_remove : ℕ → List Node → List Node
registry_remove address [] = []
registry_remove address (n ∷ ns) =
    let rest = registry_remove address ns in if n.address == address then ns else n ∷ rest

-- `node->global_ref`; `none` where the node has been freed.
pub global_ref : ℕ → List Node → Option ℕ
global_ref address [] = none
global_ref address (n ∷ ns) =
    let rest = global_ref address ns in if n.address == address then some n.global_ref else rest

-- `mp_obj_str_get_str` and `mp_get_buffer_raise`; `none` where they raise.
abbrev pub get_str : Obj → Option (List ℕ)
get_str (str cs) = some cs
get_str (bytes bs) = none
get_str (other o) = none

abbrev pub get_buffer : Obj → Option (List ℕ)
get_buffer (str cs) = some cs
get_buffer (bytes bs) = some bs
get_buffer (other o) = none

-- The argument `ssl`: None or False, True, or another object.
pub data Ssl : Type 0 where
  ssl_off ssl_on ssl_other : Ssl

-- The parsed arguments; `other_params` tells whether `ssl_params` is a dict with a key that is not
-- "server_hostname".
pub record Args : Type 0 where
  pub client_id : Obj
  pub server : Obj
  pub port : ℤ
  pub user : Option Obj
  pub password : Option Obj
  pub keepalive : ℤ
  pub ssl : Ssl
  pub other_params : Bool

abbrev pub is_other : Ssl → Bool
is_other ssl_off = false
is_other ssl_on = false
is_other ssl_other = true

abbrev pub is_on : Ssl → Bool
is_on ssl_off = false
is_on ssl_on = true
is_on ssl_other = false

abbrev pub port_or_default : ℤ → Bool → ℤ
port_or_default (pos n) ssl = if n == 0 then (if ssl then pos 8883 else pos 1883) else pos n
port_or_default (negsuc n) ssl = negsuc n

-- What `mqtt_bridge_create` gives (`none` where it fails), and the addresses of the object (`none` where the
-- allocation raises) and of the node.
pub record Answers : Type 0 where
  pub create : List ℕ → List ℕ → ℤ → Bool → Option ℕ
  pub new_object : Option ℕ
  pub new_node : ℕ

abbrev pub new_client : Args → ℕ → Client
new_client args node = record {
  node = some node;
  callback = none;
  user_obj = args.user;
  password_obj = args.password;
  keepalive = args.keepalive;
  lw_topic = none;
  lw_msg = none;
  lw_qos = pos 0;
  lw_retain = false;
}

-- `mqtt_client_make_new` from the allocation of the object on.
pub add_client : Args → Answers → ℕ → Option ℕ → World → Outcome ℕ × World
add_client args answers ref none w = (raised memory_error, record w { log = created ref ∷ w.log })
add_client args answers ref (some self) w = (
  returned self,
  record {
    clients = update w.clients self (new_client args answers.new_node);
    connections = registry_add answers.new_node ref w.connections;
    log = created ref ∷ w.log;
  },
)

-- The same from the answer of `mqtt_bridge_create` on.
pub with_ref : Args → Answers → Option ℕ → World → Outcome ℕ × World
with_ref args answers none w = (raised (os_error einval), w)
with_ref args answers (some ref) w = add_client args answers ref answers.new_object w

-- The same from the strings of `client_id` and `server` on.
pub with_names : Args → Answers → Option (List ℕ) → Option (List ℕ) → World → Outcome ℕ × World
with_names args answers none server w = (raised type_error, w)
with_names args answers (some client_id) none w = (raised type_error, w)
with_names args answers (some client_id) (some server) w =
    let ssl = is_on args.ssl in
    with_ref args answers (answers.create client_id server (port_or_default args.port ssl) ssl) w

-- `mqtt_client_make_new`
pub make_new : Args → Answers → World → Outcome ℕ × World
make_new args answers w =
    if is_other args.ssl || args.other_params
    then (raised not_implemented, w)
    else with_names args answers (get_str args.client_id) (get_str args.server) w

-- `mqtt_client_close_impl` for a client at its node; `none` where it reads a freed node.
abbrev pub close_node : ℕ → ℕ → World → Option ℕ → Option World
close_node self node w none = none
close_node self node w (some ref) = some (record {
  clients = update w.clients self (record (w.clients self) { node = none });
  connections = registry_remove node w.connections;
  log = deleted ref ∷ used ref ∷ w.log;
})

abbrev pub close_at : ℕ → World → Option ℕ → Option World
close_at self w none = some w
close_at self w (some node) = close_node self node w (global_ref node w.connections)

-- `mqtt_client_close_impl`, which `mqtt_client_close` and the finaliser `mqtt_client_del` call.
pub close : ℕ → World → Option World
close self w = close_at self w (w.clients self).node

-- The loop of `mqtt_close_all`.
pub delete_all : List Node → List Event → List Event
delete_all [] log = log
delete_all (n ∷ ns) log = delete_all ns (deleted n.global_ref ∷ used n.global_ref ∷ log)

-- `mqtt_close_all`
unfoldable pub close_all : World → World
close_all w = record w { connections = []; log = delete_all w.connections w.log }
