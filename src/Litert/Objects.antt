-- ===== src/Litert/Objects.antt =====
-- Each call on the objects ends, reads no freed node, and leaves the objects in order.
use upy_android.Prelude.{ℕ, ◌≡◌, refl, sym, Bool, true, false, Option, none, some, ◌∷◌, arith}
use mathlib.Core.Path.{subst}
use upy_android.Prelude.Words.{update}
use upy_android.Prelude.Raise.{Exn, os_error, eio, Outcome, returned, raised}
use upy_android.Prelude.Run.{Ends, ends, bind, check, or_raise, or_fault}
use upy_android.Litert.{
  Node, Kind, model, environment, Event, World, list_of, remove_node, ref_at, global_ref,
  registry_remove, environment_make_new, close_environment_at, environment_close, close_model_at,
  model_close,
}
use upy_android.Litert.Running.Lists.{has_address}
use upy_android.Litert.Inv.{Inv, Owns, listed_ref, Owns-add, Owns-remove, Owns-same}

-- However a call ends, the objects are in order.
abbrev pub Leaves : {A : Type 0} → Outcome A → World → Type 0
Leaves r w' = Inv w'

pub log_Inv : (w : World) (e : Event) → Inv w → Inv (record w { log = e ∷ w.log })
log_Inv w e v = record { environments = v.environments; models = v.models }

check_Inv : (w : World) (b : Bool) (e : Exn) → Inv w → Ends Leaves (check b e w)
check_Inv w true e v = ends v
check_Inv w false e v = ends v

or_raise_Inv :
    {A : Type 0} (w : World) (e : Exn) (o : Option A) → Inv w → Ends Leaves (or_raise e o w)
or_raise_Inv w e none v = ends v
or_raise_Inv w e (some a) v = ends v

-- A reference that is read changes nothing.
abbrev pub Unmoved : {A : Type 0} → World → Outcome A → World → Type 0
Unmoved w (returned a) w' = w' ≡ w
Unmoved w (raised e) w' = ⊥

pub ref_Unmoved :
    (k : Kind) (a r : ℕ) (w : World)
    → ref_at a (list_of k w) ≡ some r
    → Ends (Unmoved w) (global_ref k a w)
unfolding global_ref
ref_Unmoved k a r w e = found (ref_at a (list_of k w)) e
  where
    found : (o : Option ℕ) → o ≡ some r → Ends (Unmoved w) (or_fault o w)
    found none e = absurd (ground (arith, e))
    found (some s) e = ends refl

-- A reference that is read is the one of the node.
abbrev pub Found : ℕ → World → Outcome ℕ → World → Type 0
Found r w (returned a) w' = (a ≡ r) × (w' ≡ w)
Found r w (raised e) w' = ⊥

pub global_ref-Found :
    (k : Kind) (a r : ℕ) (w : World)
    → ref_at a (list_of k w) ≡ some r
    → Ends (Found r w) (global_ref k a w)
unfolding global_ref
global_ref-Found k a r w e = found (ref_at a (list_of k w)) e
  where
    found : (o : Option ℕ) → o ≡ some r → Ends (Found r w) (or_fault o w)
    found none e = absurd (ground (arith, e))
    found (some s) e = ends (ground (arith, e), refl)

pub environment_make_new-Inv :
    (made : Option Node) (object : Option ℕ) (w : World)
    → ((n : Node) → made ≡ some n → has_address n.address w.environments ≡ false)
    → Inv w
    → Ends Leaves (environment_make_new made object w)
unfolding environment_make_new
environment_make_new-Inv none object w fresh v = ends v
environment_make_new-Inv (some n) none w fresh v = ends (log_Inv w _ v)
environment_make_new-Inv (some n) (some self) w fresh v = ends (record {
  environments = Owns-add w.environment_objs w.environments n self v.environments (fresh n refl);
  models = v.models;
})

module _ (self : ℕ) (ok : Bool) where
  close_environment_at-Inv :
      (o : Option ℕ) (w : World)
      → w.environment_objs self ≡ o
      → Inv w
      → Ends Leaves (close_environment_at self ok o w)
  unfolding registry_remove
  close_environment_at-Inv none w e v = ends v
  close_environment_at-Inv (some a) w e v =
      let (r, live) = listed_ref a w.environments (v.environments.listed self a e) in
      bind (ref_Unmoved environment a r w live)
        (λ ref u p. check_Inv _ ok (os_error eio) (record {
          environments =
              subst (λ u. Owns (update u.environment_objs self none) (remove_node a u.environments))
                (sym p) (Owns-remove w.environment_objs w.environments a self v.environments e);
          models = subst (λ u. Owns (λ i. (u.model_objs i).node) u.models) (sym p) v.models;
        }))
        (λ x u p. absurd p)

  pub environment_close-Inv : (w : World) → Inv w → Ends Leaves (environment_close self ok w)
  unfolding environment_close
  environment_close-Inv w v = close_environment_at-Inv (w.environment_objs self) w refl v

  close_model_at-Inv :
      (o : Option ℕ) (w : World)
      → (w.model_objs self).node ≡ o
      → Inv w
      → Ends Leaves (close_model_at self ok o w)
  unfolding registry_remove
  close_model_at-Inv none w e v = ends v
  close_model_at-Inv (some a) w e v =
      let (r, live) = listed_ref a w.models (v.models.listed self a e) in
      let shut_model = record w {
        model_objs = update w.model_objs self (record { node = none; path = none });
      } in
      let shut = Owns-remove (λ i. (w.model_objs i).node) w.models a self v.models e in
      bind (ref_Unmoved model a r shut_model live)
        (λ ref u p. check_Inv _ ok (os_error eio) (record {
          environments = subst (λ u. Owns u.environment_objs u.environments) (sym p) v.environments;
          models =
              subst (λ u. Owns (λ i. (u.model_objs i).node) (remove_node a u.models)) (sym p)
                (Owns-same (update (λ i. (w.model_objs i).node) self none)
                  (λ i. (update w.model_objs self (record { node = none; path = none }) i).node)
                  (remove_node a w.models) (λ i. ground arith) shut);
        }))
        (λ x u p. absurd p)

  pub model_close-Inv : (w : World) → Inv w → Ends Leaves (model_close self ok w)
  unfolding model_close
  model_close-Inv w v = close_model_at-Inv (w.model_objs self).node w refl v
