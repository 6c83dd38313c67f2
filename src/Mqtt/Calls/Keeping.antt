-- ===== src/Mqtt/Calls/Keeping.antt =====
-- Every method of an MQTT client keeps the state in order and reads no freed node.
use upy_android.Prelude.{
  ℕ, ◌≡◌, refl, Bool, true, false, Option, none, some, List, ◌∷◌, ◌||◌, not, either,
}
use upy_android.Prelude.Ints.{ℤ, pos, less}
use upy_android.Prelude.Raise.{Outcome, returned, raised, os_error, einval, value_error, type_error}
use upy_android.Mqtt.{Obj, World, used, get_str, get_buffer}
use upy_android.Mqtt.Inv.{Inv, Leaves, Fine, node_ref, used_Inv, change_Inv}
use upy_android.Mqtt.Calls.{
  Answer, call_failed, answered, use_ref, use_node, use_client, or_type_error, unless_closed,
  is_none, convert, will_buffer, Connect, connect, disconnect, ping, not_connected, publish,
  subscribe, unsubscribe, set_callback, set_last_will, truth,
}

module _ {A : Type 0} where
  pub use_ref-Fine :
      (answer : Answer A) (w : World) (r : ℕ)
      → Inv (record w { log = used r ∷ w.log })
      → Fine (use_ref answer w (some r))
  use_ref-Fine call_failed w r v = v
  use_ref-Fine (answered a) w r v = v

  use_node-Fine :
      (self : ℕ) (answer : Answer A) (w : World) (o : Option ℕ)
      → Inv w
      → (w.clients self).node ≡ o
      → Fine (use_node answer w o)
  use_node-Fine self answer w none v e = v
  use_node-Fine self answer w (some a) v e =
      let (r, (g, h)) = node_ref w self a v e in rw g (use_ref-Fine answer w r (used_Inv w r v h))

  pub use_client-Fine :
      (self : ℕ) (answer : Answer A) (w : World) → Inv w → Fine (use_client self answer w)
  use_client-Fine self answer w v = use_node-Fine self answer w _ v refl

  unless_closed-Fine :
      (self : ℕ) (w : World) (rest : Option (Outcome A × World))
      → Inv w
      → Fine rest
      → Fine (unless_closed self w rest)
  unless_closed-Fine self w rest v f =
      either (λ (o : Option (Outcome A × World)). Fine o) (is_none (w.clients self).node)
        (some (raised (os_error einval), w)) rest v f

  or_type_error-Fine :
      {B : Type 0} (o : Option B) (w : World) (k : B → Option (Outcome A × World))
      → Inv w
      → ((b : B) → Fine (k b))
      → Fine (or_type_error o w k)
  or_type_error-Fine none w k v f = v
  or_type_error-Fine (some b) w k v f = f b

pub connect-Fine :
    (self : ℕ) (clean : Bool) (timeout : ℕ) (bridge : Connect → Answer Bool) (w : World)
    → Inv w
    → Fine (connect self clean timeout bridge w)
unfolding connect
connect-Fine self clean timeout bridge w v = unless_closed-Fine self w _ v (
    or_type_error-Fine (convert get_str (w.clients self).user_obj) w _ v (λ a.
      or_type_error-Fine (convert get_buffer (w.clients self).password_obj) w _ v (λ b.
        or_type_error-Fine (convert get_str (w.clients self).lw_topic) w _ v (λ c.
          or_type_error-Fine (will_buffer (w.clients self)) w _ v
            (λ d. use_client-Fine self _ w v)))))

pub disconnect-Fine :
    (self : ℕ) (answer : Answer (Unit {0})) (w : World) → Inv w → Fine (disconnect self answer w)
unfolding disconnect
disconnect-Fine self answer w v =
    either (λ (o : Option (Outcome (Unit {0}) × World)). Fine o) (is_none (w.clients self).node)
      (some (returned tt, w)) _ v (use_client-Fine self answer w v)

not_connected-Fine : (o : Option (Outcome Bool × World)) → Fine o → Fine (not_connected o)
not_connected-Fine none f = f
not_connected-Fine (some (raised e, w)) f = f
not_connected-Fine (some (returned true, w)) f = f
not_connected-Fine (some (returned false, w)) f = f

pub ping-Fine : (self : ℕ) (answer : Answer Bool) (w : World) → Inv w → Fine (ping self answer w)
unfolding ping
ping-Fine self answer w v = not_connected-Fine _ (use_client-Fine self answer w v)

pub publish-Fine :
    (self : ℕ) (topic msg : Obj) (bridge : List ℕ → List ℕ → Answer (Unit {0})) (w : World)
    → Inv w
    → Fine (publish self topic msg bridge w)
unfolding publish
publish-Fine self topic msg bridge w v = unless_closed-Fine self w _ v (
    or_type_error-Fine (get_str topic) w _ v
      (λ a. or_type_error-Fine (get_buffer msg) w _ v (λ b. use_client-Fine self _ w v)))

pub subscribe-Fine :
    (self : ℕ) (topic : Obj) (bridge : List ℕ → Answer (Unit {0})) (w : World)
    → Inv w
    → Fine (subscribe self topic bridge w) × Fine (unsubscribe self topic bridge w)
unfolding subscribe unsubscribe
subscribe-Fine self topic bridge w v =
    let f = unless_closed-Fine self w _ v (
      or_type_error-Fine (get_str topic) w (λ t. use_client self (bridge t) w) v
        (λ a. use_client-Fine self _ w v)) in
    (f, f)

pub set_callback-Inv :
    (self : ℕ) (f : Option Obj) (w : World) → Inv w → Inv (set_callback self f w).1
unfolding set_callback
set_callback-Inv self f w v = change_Inv w self _ v refl

pub set_last_will-Inv :
    (is_true : ℕ → Bool) (self : ℕ) (topic msg : Obj) (retain : Bool) (qos : ℤ) (w : World)
    → Inv w
    → Inv (set_last_will is_true self topic msg retain qos w).1
unfolding set_last_will
set_last_will-Inv is_true self topic msg retain qos w v =
    (either Leaves (less qos (pos 0) || less (pos 2) qos) (raised value_error, w) _
      (record { inv = v })
      (either Leaves (not (truth is_true topic)) (raised value_error, w) _ (record { inv = v })
        (either Leaves (is_none (get_str topic) || is_none (get_buffer msg)) (raised type_error, w)
          _ (record { inv = v }) (record { inv = change_Inv w self _ v refl })))).inv
