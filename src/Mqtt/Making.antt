-- ===== src/Mqtt/Making.antt =====
-- Making an MQTT client keeps the state in order.
use upy_android.Prelude.{
  ℕ, ◌≡◌, ◌≢◌, refl, Bool, false, Option, none, some, List, ◌||◌, arith, either,
}
use upy_android.Prelude.Ints.{ℤ}
use upy_android.Prelude.Raise.{raised, not_implemented}
use upy_android.Mqtt.{
  World, Args, Answers, add_client, with_ref, with_names, make_new, is_other, is_on,
}
use upy_android.Mqtt.Registry.{has_address, has_ref, refs, one_more}
use upy_android.Mqtt.Inv.{Inv, Leaves, live}

-- What the allocation and MqttShim must give: an object, and a node and a reference that are not in use.
pub record IsFresh (answers : Answers) (w : World) : Type 0 where
  pub object : answers.new_object ≢ none
  pub node : has_address answers.new_node w.connections ≡ false
  pub ref :
      (id server : List ℕ) (port : ℤ) (ssl : Bool) (r : ℕ)
      → answers.create id server port ssl ≡ some r
      → has_ref r (refs w.connections) ≡ false

add_client-Leaves :
    (args : Args) (answers : Answers) (r : ℕ) (o : Option ℕ) (w : World)
    → Inv w
    → o ≢ none
    → has_address answers.new_node w.connections ≡ false
    → has_ref r (refs w.connections) ≡ false
    → Leaves (add_client args answers r o w)
unfolding add_client live refs has_address
add_client-Leaves args answers r none w v h n f = absurd (h refl)
add_client-Leaves args answers r (some self) w v h n f = record {
  inv = record {
    listed = λ i a p. ground (arith, p, v.listed i a);
    own = λ i j a p q. ground (arith, p, q, n, v.listed i a, v.listed j a, v.own i j a);
    distinct = one_more n f v.distinct;
    alive = rw v.alive refl;
  };
}

with_ref-Leaves :
    (args : Args) (answers : Answers) (o : Option ℕ) (w : World)
    → Inv w
    → answers.new_object ≢ none
    → has_address answers.new_node w.connections ≡ false
    → ((r : ℕ) → o ≡ some r → has_ref r (refs w.connections) ≡ false)
    → Leaves (with_ref args answers o w)
unfolding with_ref
with_ref-Leaves args answers none w v h n f = record { inv = v }
with_ref-Leaves args answers (some r) w v h n f =
    add_client-Leaves args answers r answers.new_object w v h n (f r refl)

with_names-Leaves :
    (args : Args) (answers : Answers) (id server : Option (List ℕ)) (w : World)
    → Inv w
    → IsFresh answers w
    → Leaves (with_names args answers id server w)
unfolding with_names
with_names-Leaves args answers none server w v h = record { inv = v }
with_names-Leaves args answers (some id) none w v h = record { inv = v }
with_names-Leaves args answers (some id) (some server) w v h =
    with_ref-Leaves args answers _ w v h.object h.node (h.ref id server _ (is_on args.ssl))

pub make_new-Leaves :
    (args : Args) (answers : Answers) (w : World)
    → Inv w
    → IsFresh answers w
    → Leaves (make_new args answers w)
unfolding make_new
make_new-Leaves args answers w v h =
    either Leaves (is_other args.ssl || args.other_params) (raised not_implemented, w) _
      (record { inv = v }) (with_names-Leaves args answers _ _ w v h)
