-- ===== src/Litert/Running/Buffers.antt =====
-- The buffers that a run makes, and closes.
use upy_android.Prelude.{
  ℕ, ◌≡◌, refl, sym, ap, ◌∙◌, Option, none, some, List, [], ◌∷◌, ◌++◌, append-nil, arith,
}
use mathlib.Core.Path.{subst}
use upy_android.Prelude.Raise.{Exn, os_error, eio, Outcome, returned, raised}
use upy_android.Prelude.Run.{◌>>◌, Ends, ends, bind, weaken, or_raise, or_fault}
use upy_android.Litert.{Node, model, used, World, ref_at, remove_node}
use upy_android.Litert.Running.{add_nodes, create_buffer_set, close_buffer_set}
use upy_android.Litert.Running.Lists.{
  add_all, push, Apart, Apart-right, ref_at_first, remove_first, push-append,
}
use upy_android.Litert.Running.Keeping.{buffers_made, buffers_closed, At, model_Still, event_Still}

module _ (w : World) where
  -- What only returns.
  abbrev pub Returns : {A : Type 0} → (World → Type 0) → Outcome A → World → Type 0
  Returns Q (returned a) w' = Q w'
  Returns Q (raised e) w' = ⊥

  abbrev Found : List ℕ → List ℕ → List Node → ℕ → Outcome ℕ → World → Type 0
  Found made gone bs r (returned s) w' = (s ≡ r) × At w bs made gone w'
  Found made gone bs r (raised e) w' = ⊥

  add_nodes-At :
      (ns bs : List Node) (made gone : List ℕ) (w' : World)
      → At w bs made gone w'
      → Ends (Returns (At w (add_all ns bs) (push ns made) gone)) (add_nodes ns w')
  unfolding buffers_made buffers_closed
  add_nodes-At [] bs made gone w' h = ends h
  add_nodes-At (n ∷ ns) bs made gone w' h =
      add_nodes-At ns (n ∷ bs) (n.global_ref ∷ made) gone _ (record {
        listed = ap (λ (l : List Node). n ∷ l) h.listed;
        models = h.models;
        environments = h.environments;
        environment_objs = h.environment_objs;
        model_objs = h.model_objs;
        made_so_far = ap (λ (l : List ℕ). n.global_ref ∷ l) h.made_so_far;
        closed_so_far = h.closed_so_far;
      })

  -- The reference of a node that can be read.
  found :
      {made gone : List ℕ} {bs : List Node} (w' : World) (o : Option ℕ) (r : ℕ)
      → o ≡ some r
      → At w bs made gone w'
      → Ends (Found made gone bs r) (or_fault o w')
  found w' none r e h = absurd (ground (arith, e))
  found w' (some s) r e h = ends (ground (arith, e), h)

  -- Behind a part of the buffers that were added.
  close_buffers_At :
      (ns ms bs : List Node) (made gone : List ℕ) (w' : World)
      → Apart (ns ++ ms)
      → At w (add_all (ns ++ ms) bs) made gone w'
      → Ends (Returns (At w (add_all ms bs) made (push ns gone))) (close_buffer_set ns w')
  unfolding close_buffer_set buffers_made buffers_closed
  close_buffers_At [] ms bs made gone w' a h = ends h
  close_buffers_At (n ∷ ns) ms bs made gone w' (a, as_) h =
      bind
        (found w' (ref_at n.address w'.buffers) n.global_ref
          (ap (ref_at n.address) h.listed ∙ ref_at_first n (ns ++ ms) bs a) h)
        (λ ref v (same, p). close_buffers_At ns ms bs made (n.global_ref ∷ gone) _ as_ (record {
          listed = ap (remove_node n.address) p.listed ∙ remove_first n (ns ++ ms) bs a;
          models = p.models;
          environments = p.environments;
          environment_objs = p.environment_objs;
          model_objs = p.model_objs;
          made_so_far = p.made_so_far;
          closed_so_far =
              ap (λ (r : ℕ). r ∷ buffers_closed v.log) same
              ∙ ap (λ (l : List ℕ). n.global_ref ∷ l) p.closed_so_far;
        }))
        (λ e v p. absurd p)

  pub close_all_At :
      (ns bs : List Node) (made gone : List ℕ) (w' : World)
      → Apart ns
      → At w (add_all ns bs) made gone w'
      → Ends (Returns (At w bs made (push ns gone))) (close_buffer_set ns w')
  close_all_At ns bs made gone w' a h =
      close_buffers_At ns [] bs made gone w' (subst Apart (sym (append-nil ns)) a)
        (subst (λ l. At w (add_all l bs) made gone w') (sym (append-nil ns)) h)

  pub close_both_At :
      (ins outs bs : List Node) (made gone : List ℕ) (w' : World)
      → Apart (ins ++ outs)
      → At w (add_all (ins ++ outs) bs) made gone w'
      → Ends
          (Returns (At w bs made (push (ins ++ outs) gone)))
          ((close_buffer_set ins >> close_buffer_set outs) w')
  close_both_At ins outs bs made gone w' a h =
      bind (close_buffers_At ins outs bs made gone w' a h)
        (λ t v p.
          weaken (close_all_At outs bs made (push ins gone) v (Apart-right ins outs a) p)
            (λ r v q. exact r v q))
        (λ e v p. absurd p)
    where
      exact :
          (r : Outcome (Unit {0})) (v : World)
          → Returns (At w bs made (push outs (push ins gone))) r v
          → Returns (At w bs made (push (ins ++ outs) gone)) r v
      exact (returned t) v q = subst (λ l. At w bs made l v) (sym (push-append ins outs gone)) q
      exact (raised e) v q = q

  abbrev pub Made :
      Option (List Node) → List Node → List ℕ → List ℕ → Outcome (List Node) → World → Type 0
  Made answer bs made gone (returned ns) w' =
      (answer ≡ some ns) × At w (add_all ns bs) (push ns made) gone w'
  Made answer bs made gone (raised e) w' = At w bs made gone w'

  -- The answer of the bridge.
  abbrev Given :
      Option (List Node) → List Node → List ℕ → List ℕ → Outcome (List Node) → World → Type 0
  Given answer bs made gone (returned ns) w' = (answer ≡ some ns) × At w bs made gone w'
  Given answer bs made gone (raised e) w' = At w bs made gone w'

  given :
      (answer : Option (List Node)) (e : Exn) (bs : List Node) (made gone : List ℕ) (w' : World)
      → At w bs made gone w'
      → Ends (Given answer bs made gone) (or_raise e answer w')
  given none e bs made gone w' h = ends h
  given (some ns) e bs made gone w' h = ends (refl, h)

  pub create_At :
      (node r : ℕ) (answer : Option (List Node)) (bs : List Node) (made gone : List ℕ) (w' : World)
      → ref_at node w.models ≡ some r
      → At w bs made gone w'
      → Ends (Made answer bs made gone) (create_buffer_set node answer w')
  unfolding create_buffer_set
  create_At node r answer bs made gone w' open_ h =
      bind (model_Still w bs made gone w' node r open_ h)
        (λ ref v p.
          bind
            (given answer (os_error eio) bs made gone _
              (event_Still w bs made gone v (used model ref) (λ rs. (refl, refl)) p))
            (λ ns v (same, p).
              bind (add_nodes-At ns bs made gone v p) (λ t v q. ends (same, q)) (λ e v q. absurd q))
            (λ e v p. p))
        (λ e v p. p)
