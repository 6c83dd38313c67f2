-- ===== src/Litert/Running/Keeping.antt =====
-- What the guarded part of a run leaves alone: the lists, and the buffers that are open.
use upy_android.Prelude.{
  ℕ, ◌≡◌, sym, ap, ◌∙◌, Bool, true, false, Option, none, some, List, [], ◌∷◌, inl, inr, arith,
}
use mathlib.Core.Path.{subst}
use upy_android.Prelude.Raise.{Exn, Outcome}
use upy_android.Prelude.Run.{Ends, ends, check, or_raise, or_fault}
use upy_android.Litert.{
  Node, buffer, model, environment, Event, created, used, closed, written, ran, World, global_ref,
  ref_at,
}
use upy_android.Litert.Tensors.Balance.{opened, Shaped}

abbrev pub make : Event → List ℕ → List ℕ
make (created buffer r) rs = r ∷ rs
make (created model r) rs = rs
make (created environment r) rs = rs
make (used k r) rs = rs
make (closed k r) rs = rs
make (written r t n) rs = rs
make (ran m is os) rs = rs

abbrev pub shut : Event → List ℕ → List ℕ
shut (closed buffer r) rs = r ∷ rs
shut (closed model r) rs = rs
shut (closed environment r) rs = rs
shut (used k r) rs = rs
shut (created k r) rs = rs
shut (written r t n) rs = rs
shut (ran m is os) rs = rs

-- The buffers that a log makes, and those that it closes, the latest first.
unfoldable pub buffers_made : List Event → List ℕ
buffers_made [] = []
buffers_made (e ∷ es) = make e (buffers_made es)

unfoldable pub buffers_closed : List Event → List ℕ
buffers_closed [] = []
buffers_closed (e ∷ es) = shut e (buffers_closed es)

-- A state in a run that began at `w`: its list of buffers, those made and those closed so far; the other
-- lists and the objects are as they were.
pub record At (w : World) (bs : List Node) (made gone : List ℕ) (w' : World) : Type 0 where
  pub listed : w'.buffers ≡ bs
  pub models : w'.models ≡ w.models
  pub environments : w'.environments ≡ w.environments
  pub environment_objs : w'.environment_objs ≡ w.environment_objs
  pub model_objs : w'.model_objs ≡ w.model_objs
  pub made_so_far : buffers_made w'.log ≡ made
  pub closed_so_far : buffers_closed w'.log ≡ gone

module _ (w : World) (bs : List Node) (made gone : List ℕ) where
  -- However a call ends, the state is as before.
  abbrev pub Still : {A : Type 0} → Outcome A → World → Type 0
  Still r w' = At w bs made gone w'

  pub or_fault-Still :
      {A : Type 0} (w' : World) (o : Option A) (a : A)
      → o ≡ some a
      → At w bs made gone w'
      → Ends Still (or_fault o w')
  or_fault-Still w' none a e h = absurd (ground (arith, e))
  or_fault-Still w' (some b) a e h = ends h

  pub or_raise-Still :
      {A : Type 0} (w' : World) (o : Option A) (e : Exn)
      → At w bs made gone w'
      → Ends Still (or_raise e o w')
  or_raise-Still w' none e h = ends h
  or_raise-Still w' (some a) e h = ends h

  pub check-Still :
      (w' : World) (b : Bool) (e : Exn) → At w bs made gone w' → Ends Still (check b e w')
  check-Still w' true e h = ends h
  check-Still w' false e h = ends h

  -- A node in the list of buffers can be read.
  pub buffer_Still :
      (w' : World) (a r : ℕ)
      → ref_at a bs ≡ some r
      → At w bs made gone w'
      → Ends Still (global_ref buffer a w')
  unfolding global_ref
  buffer_Still w' a r e h = or_fault-Still w' (ref_at a w'.buffers) r (ap (ref_at a) h.listed ∙ e) h

  pub model_Still :
      (w' : World) (a r : ℕ)
      → ref_at a w.models ≡ some r
      → At w bs made gone w'
      → Ends Still (global_ref model a w')
  unfolding global_ref
  model_Still w' a r e h = or_fault-Still w' (ref_at a w'.models) r (ap (ref_at a) h.models ∙ e) h

  opened_Still : (w' : World) → At w bs made gone w' → At w bs made gone (opened w')
  opened_Still w' h = record {
    listed = h.listed;
    models = h.models;
    environments = h.environments;
    environment_objs = h.environment_objs;
    model_objs = h.model_objs;
    made_so_far = h.made_so_far;
    closed_so_far = h.closed_so_far;
  }

  pub same_Still : {v w' : World} → v ≡ w' → At w bs made gone w' → At w bs made gone v
  same_Still e h = subst (At w bs made gone) (sym e) h

  pub Shaped-Still :
      {A : Type 0} (w' : World) (r : Outcome A) (v : World)
      → At w bs made gone w'
      → Shaped w' r v
      → At w bs made gone v
  Shaped-Still w' r v h (inl e) = same_Still e h
  Shaped-Still w' r v h (inr (e, f)) = same_Still f (opened_Still w' h)

  -- An event that neither makes nor closes a buffer.
  pub event_Still :
      (w' : World) (e : Event)
      → ((rs : List ℕ) → (make e rs ≡ rs) × (shut e rs ≡ rs))
      → At w bs made gone w'
      → At w bs made gone (record w' { log = e ∷ w'.log })
  unfolding buffers_made buffers_closed
  event_Still w' e q h = record {
    listed = h.listed;
    models = h.models;
    environments = h.environments;
    environment_objs = h.environment_objs;
    model_objs = h.model_objs;
    made_so_far = (q (buffers_made w'.log)).0 ∙ h.made_so_far;
    closed_so_far = (q (buffers_closed w'.log)).1 ∙ h.closed_so_far;
  }
