-- ===== src/Litert/Running/Closing.antt =====
-- A run closes the buffers that it made, whatever happens.
use upy_android.Prelude.{ℕ, ◌≡◌, refl, sym, ap, ◌∙◌, Option, none, some, List, [], ◌++◌}
use mathlib.Core.Path.{subst}
use upy_android.Prelude.Raise.{Exn, os_error, einval, Outcome, returned, raised}
use upy_android.Prelude.Run.{
  ◌>>◌, Ends, ends, bind, weaken, guarded, or_raise, on_raise, pure, ◌>>=◌, and_then,
}
use upy_android.Litert.{Node, World, ref_at, Obj}
use upy_android.Litert.Running.{
  Answers, create_buffer_set, close_buffer_set, close_both, run_guarded, run,
}
use upy_android.Litert.Running.Lists.{
  add_all, push, Apart, Apart-Live, Live-left, Live-right, Apart-left, add_all-append, push-append,
}
use upy_android.Litert.Running.Keeping.{buffers_made, buffers_closed, At}
use upy_android.Litert.Running.Buffers.{Returns, close_all_At, close_both_At, create_At}
use upy_android.Litert.Running.Body.{run_guarded_Still}

-- The buffers that the bridge makes for an answer.
abbrev pub nodes_of : Option (List Node) → List Node
nodes_of none = []
nodes_of (some ns) = ns

-- Some buffers have been made and closed since `w`, the same ones in the same order; the lists are as they
-- were.
abbrev pub AllClosed : {A : Type 0} → World → Outcome A → World → Type 0
AllClosed w r w' =
    (ns : List Node) × At w w.buffers (push ns (buffers_made w.log))
      (push ns (buffers_closed w.log)) w'

-- While both sets are there: a call returns with them still open, or it has raised, and all is closed.
abbrev Guarded : {A : Type 0} → World → List Node → List ℕ → List ℕ → Outcome A → World → Type 0
Guarded w bs made gone (returned a) w' = At w bs made gone w'
Guarded w bs made gone (raised e) w' = AllClosed {A = Unit {0}} w (raised e) w'

close_done :
    (w : World) (ns : List Node) (r : Outcome (Unit {0})) (w' : World)
    → Returns w
        (At w w.buffers (push ns (buffers_made w.log)) (push ns (buffers_closed w.log)))
        r
        w'
    → (e : Exn) → AllClosed {A = Unit {0}} w (raised e) w'
close_done w ns (returned t) w' h e = (ns, h)
close_done w ns (raised d) w' h e = absurd h

module _ (item_size : ℕ → ℕ) (answers : Answers) (self : ℕ) (w : World) where
  -- From the two sets on.
  with_both :
      (node r : ℕ) (ins outs : List Node) (args : List Obj) (w' : World)
      → ref_at node w.models ≡ some r
      → Apart (ins ++ outs)
      → At w
          (add_all (ins ++ outs) w.buffers)
          (push (ins ++ outs) (buffers_made w.log))
          (buffers_closed w.log)
          w'
      → Ends (AllClosed w) (
          (on_raise (run_guarded item_size answers self node ins outs args) (close_both ins outs)
              >>= λ r. close_both ins outs >> pure r)
            w')
  with_both node r ins outs args w' open_ apart h =
      let bs = add_all (ins ++ outs) w.buffers in
      let made = push (ins ++ outs) (buffers_made w.log) in
      let gone = buffers_closed w.log in
      let live = Apart-Live (ins ++ outs) w.buffers apart in
      bind {P = Guarded w bs made gone}
        (guarded
          (run_guarded_Still w bs made gone item_size answers self node r ins outs args w' open_
            (Live-left ins outs bs live) (Live-right ins outs bs live) h)
          (λ a v p. p)
          (λ e v p.
            weaken (close_both_At w ins outs w.buffers made gone v apart p)
              (λ o u q. close_done w (ins ++ outs) o u q)))
        (λ a v p.
          bind (close_both_At w ins outs w.buffers made gone v apart p)
            (λ t u q. ends (ins ++ outs, q)) (λ e u q. absurd q))
        (λ e v p. p)

  abbrev OutputsMade : List Node → Outcome (List Node) → World → Type 0
  OutputsMade ins (returned outs) w' =
      (answers.outputs ≡ some outs)
      × At w (add_all (ins ++ outs) w.buffers) (push (ins ++ outs) (buffers_made w.log))
          (buffers_closed w.log) w'
  OutputsMade ins (raised e) w' = AllClosed {A = Unit {0}} w (raised e) w'

  both_added :
      (ins outs : List Node) (w' : World)
      → At w
          (add_all outs (add_all ins w.buffers))
          (push outs (push ins (buffers_made w.log)))
          (buffers_closed w.log)
          w'
      → At w
          (add_all (ins ++ outs) w.buffers)
          (push (ins ++ outs) (buffers_made w.log))
          (buffers_closed w.log)
          w'
  both_added ins outs w' h = record {
    listed = h.listed ∙ sym (add_all-append ins outs w.buffers);
    models = h.models;
    environments = h.environments;
    environment_objs = h.environment_objs;
    model_objs = h.model_objs;
    made_so_far = h.made_so_far ∙ sym (push-append ins outs (buffers_made w.log));
    closed_so_far = h.closed_so_far;
  }

  outputs_made :
      (node r : ℕ) (ins : List Node) (w' : World)
      → ref_at node w.models ≡ some r
      → Apart ins
      → At w (add_all ins w.buffers) (push ins (buffers_made w.log)) (buffers_closed w.log) w'
      → Ends
          (OutputsMade ins)
          (on_raise (create_buffer_set node answers.outputs) (close_both ins []) w')
  unfolding close_buffer_set
  outputs_made node r ins w' open_ apart h =
      let bs = add_all ins w.buffers in
      let made = push ins (buffers_made w.log) in
      let gone = buffers_closed w.log in
      guarded (create_At w node r answers.outputs bs made gone w' open_ h)
        (λ outs v (same, p). (same, both_added ins outs v p))
        (λ e v p.
          bind (close_all_At w ins w.buffers made gone v apart p) (λ t u q. ends (λ e. (ins, q)))
            (λ e u q. absurd q))

  abbrev InputsMade : Outcome (List Node) → World → Type 0
  InputsMade (returned ins) w' =
      (answers.inputs ≡ some ins)
      × At w (add_all ins w.buffers) (push ins (buffers_made w.log)) (buffers_closed w.log) w'
  InputsMade (raised e) w' = AllClosed {A = Unit {0}} w (raised e) w'

  inputs_made :
      (node r : ℕ) (w' : World)
      → ref_at node w.models ≡ some r
      → At w w.buffers (buffers_made w.log) (buffers_closed w.log) w'
      → Ends InputsMade (on_raise (create_buffer_set node answers.inputs) (close_both [] []) w')
  unfolding close_buffer_set
  inputs_made node r w' open_ h =
      guarded
        (create_At w node r answers.inputs w.buffers (buffers_made w.log) (buffers_closed w.log) w'
          open_ h)
        (λ ins v p. p) (λ e v p. ends (λ e. ([], p)))

  start_At : At w w.buffers (buffers_made w.log) (buffers_closed w.log) w
  start_At = record {
    listed = refl;
    models = refl;
    environments = refl;
    environment_objs = refl;
    model_objs = refl;
    made_so_far = refl;
    closed_so_far = refl;
  }

  open_run :
      (args : List Obj) (node : Option ℕ)
      → ((a : ℕ) → node ≡ some a → (r : ℕ) × (ref_at a w.models ≡ some r))
      → Apart (nodes_of answers.inputs ++ nodes_of answers.outputs)
      → Ends (AllClosed w) (
          and_then (or_raise (os_error einval) node w) (λ node. do
            inputs ← on_raise (create_buffer_set node answers.inputs) (close_both [] [])
            outputs ← on_raise (create_buffer_set node answers.outputs) (close_both inputs [])
            r ←
                on_raise
                  (run_guarded item_size answers self node inputs outputs args)
                  (close_both inputs outputs)
            close_both inputs outputs
            pure r))
  open_run args none live apart = ends ([], start_At)
  open_run args (some node) live apart =
      let (r, open_) = live node refl in
      bind (inputs_made node r w open_ start_At)
        (λ ins v (e, p).
          let apart1 : Apart (ins ++ nodes_of answers.outputs) =
            subst (λ l. Apart (l ++ nodes_of answers.outputs)) (ap nodes_of e) apart in
          bind (outputs_made node r ins v open_ (Apart-left ins _ apart1) p)
            (λ outs u (f, q).
              with_both node r ins outs args u open_
                (subst (λ l. Apart (ins ++ l)) (ap nodes_of f) apart1) q)
            (λ e u q. q))
        (λ e v p. p)

  -- A run never reads a freed node, and however it ends, by a value or by an exception, it has closed the
  -- buffers that it made, each once and no others, and the lists and the objects are as they were. The model,
  -- if it is open, has its node in the list, and the new buffers have different nodes.
  pub run_closes :
      (args : List Obj)
      → ((a : ℕ) → (w.model_objs self).node ≡ some a → (r : ℕ) × (ref_at a w.models ≡ some r))
      → Apart (nodes_of answers.inputs ++ nodes_of answers.outputs)
      → Ends (AllClosed w) (run item_size answers self args w)
  unfolding run
  run_closes args live apart = open_run args (w.model_objs self).node live apart
