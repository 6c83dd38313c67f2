-- ===== src/Mqtt/Inv.antt =====
-- What holds of the MQTT clients between calls: the list has the node of every client that is not closed,
-- and the references that are alive are those of the list.
use upy_android.Prelude.{
  ℕ, ◌≡◌, ◌≢◌, refl, sym, ap, ◌∙◌, true, Option, none, some, List, [], ◌∷◌, if◌then◌else◌, arith,
}
use upy_android.Prelude.Words.{update}
use upy_android.Prelude.Raise.{Outcome}
use upy_android.Mqtt.{
  Event, created, used, deleted, called, Client, World, registry_remove, global_ref, close_at,
  close,
}
use upy_android.Mqtt.Registry.{
  has_address, has_ref, remove_ref, refs, Distinct, global_ref_lem, remove-other, remove-refs,
  remove-Distinct,
}

-- What an event leaves of the references that are alive; `none` where it uses or deletes one that is not.
abbrev pub respond : Event → List ℕ → Option (List ℕ)
respond (created r) rs = some (r ∷ rs)
respond (used r) rs = if has_ref r rs then some rs else none
respond (deleted r) rs = if has_ref r rs then some (remove_ref r rs) else none
respond (called f topic payload) rs = some rs

abbrev pub respond_if : Event → Option (List ℕ) → Option (List ℕ)
respond_if e none = none
respond_if e (some rs) = respond e rs

-- The references that are alive after a log.
unfoldable pub live : List Event → Option (List ℕ)
live [] = some []
live (e ∷ es) = respond_if e (live es)

pub record Inv (w : World) : Type 0 where
  pub listed : (i a : ℕ) → (w.clients i).node ≡ some a → has_address a w.connections ≡ true
  pub own : (i j a : ℕ) → (w.clients i).node ≡ some a → (w.clients j).node ≡ some a → i ≡ j
  pub distinct : Distinct w.connections
  pub alive : live w.log ≡ some (refs w.connections)

-- The node of a client can be read.
pub node_ref :
    (w : World) (i a : ℕ)
    → Inv w
    → (w.clients i).node ≡ some a
    → (r : ℕ) × ((global_ref a w.connections ≡ some r) × (has_ref r (refs w.connections) ≡ true))
node_ref w i a v e = global_ref_lem a w.connections (v.listed i a e)

-- A reference in the list is used.
pub used_Inv :
    (w : World) (r : ℕ)
    → Inv w
    → has_ref r (refs w.connections) ≡ true
    → Inv (record w { log = used r ∷ w.log })
unfolding live
used_Inv w r v h = record {
  listed = v.listed;
  own = v.own;
  distinct = v.distinct;
  alive = rw v.alive (rw h refl);
}

-- Another value of a client, with the same node.
pub change_Inv :
    (w : World) (i : ℕ) (c : Client)
    → Inv w
    → c.node ≡ (w.clients i).node
    → Inv (record w { clients = update w.clients i c })
change_Inv w i c v e = record {
  listed = λ j a p. ground (arith, v.listed j a, v.listed i a);
  own = λ j k a p q. v.own j k a (sym (same j) ∙ p) (sym (same k) ∙ q);
  distinct = v.distinct;
  alive = v.alive;
}
  where
    same : (j : ℕ) → (update w.clients i c j).node ≡ (w.clients j).node
    same j = ground (arith, e)

abbrev shut : Client → Client
shut c = record c { node = none }

close_node_Inv :
    (self node r : ℕ) (w : World)
    → Inv w
    → (w.clients self).node ≡ some node
    → global_ref node w.connections ≡ some r
    → has_ref r (refs w.connections) ≡ true
    → Inv (record {
      clients = update w.clients self (record (w.clients self) { node = none });
      connections = registry_remove node w.connections;
      log = deleted r ∷ used r ∷ w.log;
    })
unfolding live
close_node_Inv self node r w v e g h = record {
  listed = λ i a p. remove-other node a w.connections (other i a p) ∙ v.listed i a (before i a p);
  own = λ i j a p q. v.own i j a (before i a p) (before j a q);
  distinct = remove-Distinct node w.connections v.distinct;
  alive = rw v.alive (rw h (rw h (ap some (sym (remove-refs node r w.connections v.distinct g)))));
}
  where
    before :
        (i a : ℕ)
        → (update w.clients self (shut (w.clients self)) i).node ≡ some a
        → (w.clients i).node ≡ some a
    before i a p = ground (arith, p)

    other : (i a : ℕ) → (update w.clients self (shut (w.clients self)) i).node ≡ some a → node ≢ a
    other i a p eq =
        let at_i : (w.clients i).node ≡ some node = before i a p ∙ ap some (sym eq) in
        let same = v.own self i node e at_i in ground (arith, p, same)

-- The state after a call is in order.
pub record Leaves {A : Type 0} (r : Outcome A × World) : Type 0 where
  pub inv : Inv r.1

-- What a call leaves: never a freed node that is read, and the state in order.
abbrev pub Fine : {A : Type 0} → Option (Outcome A × World) → Type 0
Fine none = ⊥
Fine (some (r, w)) = Inv w

abbrev pub FineState : Option World → Type 0
FineState none = ⊥
FineState (some w) = Inv w

close_at-Fine :
    (self : ℕ) (w : World) (o : Option ℕ)
    → Inv w
    → (w.clients self).node ≡ o
    → FineState (close_at self w o)
close_at-Fine self w none v e = v
close_at-Fine self w (some node) v e =
    let (r, (g, h)) = node_ref w self node v e in rw g (close_node_Inv self node r w v e g h)

-- Closing a client, or finalising it, reads no freed node and leaves the state in order.
pub close-Fine : (self : ℕ) (w : World) → Inv w → FineState (close self w)
unfolding close
close-Fine self w v = close_at-Fine self w _ v refl
