-- ===== src/Litert/Making.antt =====
-- The calls that make a model, ask for its tensors or run it: each ends, reads no freed node, and leaves the
-- objects in order.
use upy_android.Prelude.{
  ℕ, ◌≡◌, refl, sym, ◌∙◌, Bool, false, Option, none, some, List, ◌∷◌, ◌++◌, inl, inr, arith,
}
use mathlib.Core.Path.{subst}
use upy_android.Prelude.Ints.{ℤ}
use upy_android.Prelude.Words.{update}
use upy_android.Prelude.Raise.{
  Exn, os_error, einval, type_error, memory_error, Outcome, returned, raised,
}
use upy_android.Prelude.Run.{Ends, ends, bind, weaken, or_raise, ◌>>=◌, ◌>>◌, modify, pure}
use upy_android.Litert.{
  Node, model, environment, Event, used, created, World, CompiledModel, registry_add, record_event,
  Obj, get_environment, get_str, get_options, Compile, strip_slash, compiled_model_make_new,
}
use upy_android.Litert.Tensors.{Api, shape_of}
use upy_android.Litert.Tensors.Balance.{opened, Shaped, shape_lem}
use upy_android.Litert.Running.{Answers, run}
use upy_android.Litert.Running.Lists.{has_address, Apart}
use upy_android.Litert.Running.Closing.{nodes_of, run_closes}
use upy_android.Litert.Inv.{Inv, Owns, listed_ref, Owns-add, Owns-same}
use upy_android.Litert.Objects.{Leaves, log_Inv, ref_Unmoved}

-- The new node of a model, for an object that may not be allocated.
module _ (n : Node) (path : List ℕ) (w : World) (fresh : has_address n.address w.models ≡ false)
    (v : Inv w) where
  add_model :
      (object : Option ℕ)
      → Ends Leaves (
          (or_raise memory_error object >>= λ self.
          registry_add model n
          >> (modify (λ w. record w {
            model_objs =
                update w.model_objs self (record { node = some n.address; path = some path });
          })
              >> pure self))
            w)
  add_model none = ends v
  add_model (some self) = ends (record {
    environments = v.environments;
    models =
        Owns-same (update (λ i. (w.model_objs i).node) self (some n.address))
          (λ i.
            (update w.model_objs self (record { node = some n.address; path = some path }) i).node)
          (n ∷ w.models) (λ i. ground arith)
          (Owns-add (λ i. (w.model_objs i).node) w.models n self v.models fresh);
  })

-- From the bridge's answer on, for a state whose list has no new node.
with_made :
    (name : List ℕ) (made : Option Node) (object : Option ℕ) (e : Event) (w : World)
    → ((n : Node) → made ≡ some n → has_address n.address w.models ≡ false)
    → Inv w
    → Ends Leaves (
        (or_raise (os_error einval) made >>= λ n.
        record_event (created model n.global_ref)
        >> (or_raise memory_error object >>= λ self.
            registry_add model n
            >> (modify (λ w. record w {
              model_objs =
                  update w.model_objs self (record { node = some n.address; path = some name });
            })
                >> pure self)))
          (record w { log = e ∷ w.log }))
with_made name none object e w new v = ends (log_Inv w e v)
with_made name (some n) object e w new v =
    add_model n name (record w { log = created model n.global_ref ∷ e ∷ w.log }) (new n refl)
      (record { environments = v.environments; models = v.models }) object

-- An answer that is there or raises; the state stays.
abbrev Answered : {A : Type 0} → Option A → World → Outcome A → World → Type 0
Answered o w (returned a) w' = (o ≡ some a) × (w' ≡ w)
Answered o w (raised e) w' = w' ≡ w

answer : {A : Type 0} (e : Exn) (o : Option A) (w : World) → Ends (Answered o w) (or_raise e o w)
answer e none w = ends refl
answer e (some a) w = ends (refl, refl)

still : (w w' : World) → Inv w → w' ≡ w → Inv w'
still w w' v e = subst Inv (sym e) v

-- The models' list has none of the nodes that a compilation may give.
abbrev pub IsNew : Compile → World → Type 0
IsNew compile w =
    (r : ℕ) (p : List ℕ) (a b : ℤ) (n : Node)
    → compile r p a b ≡ some n
    → has_address n.address w.models ≡ false

pub compiled_model_make_new-Inv :
    (env path : Obj) (options : Option Obj) (compile : Compile) (object : Option ℕ) (w : World)
    → IsNew compile w
    → Inv w
    → Ends Leaves (compiled_model_make_new env path options compile object w)
unfolding compiled_model_make_new
compiled_model_make_new-Inv env path options compile object w fresh v =
    bind (answer (os_error einval) (get_environment env) w)
      (λ i w1 (_, p1).
        bind (answer (os_error einval) (w1.environment_objs i) w1)
          (λ a w2 (open_, p2).
            bind (answer type_error (get_str path) w2)
              (λ name w3 (_, p3).
                bind (answer (os_error einval) (get_options options) w3)
                  (λ opts w4 (_, p4).
                    let q = p4 ∙ p3 ∙ p2 ∙ p1 in
                    let v4 = still w w4 v q in
                    let live =
                      subst (λ u. u.environment_objs i ≡ some a) (sym (p4 ∙ p3 ∙ p2)) open_ in
                    let (r, at_r) =
                      listed_ref a w4.environments (v4.environments.listed i a live) in
                    bind (ref_Unmoved environment a r w4 at_r)
                      (λ ref w5 p5.
                        with_made (strip_slash name) (compile ref (strip_slash name) opts.0 opts.1)
                          object (used environment ref) w5
                          (λ n c.
                            subst (λ u. has_address n.address u.models ≡ false) (sym (p5 ∙ q))
                              (fresh ref _ _ _ n c))
                          (still w w5 v (p5 ∙ q)))
                      (λ e u p. absurd p))
                  (λ e u p. still w u v (p ∙ p3 ∙ p2 ∙ p1)))
              (λ e u p. still w u v (p ∙ p2 ∙ p1)))
          (λ e u p. still w u v (p ∙ p1)))
      (λ e u p. still w u v p)

Shaped_Inv : {A : Type 0} (w : World) (r : Outcome A) (w' : World) → Inv w → Shaped w r w' → Inv w'
Shaped_Inv w r w' v (inl e) = still w w' v e
Shaped_Inv w r w' v (inr (_, e)) =
    still (opened w) w' (record { environments = v.environments; models = v.models }) e

pub shape_of-Inv :
    (api : Api) (self : ℕ) (is_output : Bool) (index : ℤ) (w : World)
    → Inv w
    → Ends Leaves (shape_of api self is_output index w)
unfolding shape_of
shape_of-Inv api self is_output index w v =
    bind (answer (os_error einval) (w.model_objs self).node w)
      (λ a w1 (_, p).
        weaken (shape_lem api self is_output index w1)
          (λ r u q. Shaped_Inv w1 r u (still w w1 v p) q))
      (λ e u p. still w u v p)

pub run-Inv :
    (item_size : ℕ → ℕ) (answers : Answers) (self : ℕ) (args : List Obj) (w : World)
    → Apart (nodes_of answers.inputs ++ nodes_of answers.outputs)
    → Inv w
    → Ends Leaves (run item_size answers self args w)
run-Inv item_size answers self args w apart v =
    weaken
      (run_closes item_size answers self w args
        (λ a e. listed_ref a w.models (v.models.listed self a e)) apart)
      (λ r u (ns, h). record {
        environments =
            subst (λ f. Owns f u.environments) (sym h.environment_objs)
              (subst (Owns w.environment_objs) (sym h.environments) v.environments);
        models =
            subst (λ (f : ℕ → CompiledModel). Owns (λ i. (f i).node) u.models) (sym h.model_objs)
              (subst (Owns (λ i. (w.model_objs i).node)) (sym h.models) v.models);
      })
