-- ===== src/Litert/Moves.antt =====
-- The litert module over any sequence of calls, up to the reset that closes what is left.
use upy_android.Prelude.{ℕ, ◌≡◌, Bool, false, Option, none, some, List, [], ◌++◌, arith}
use mathlib.Core.Path.{subst}
use upy_android.Prelude.Ints.{ℤ}
use upy_android.Prelude.Raise.{Outcome}
use upy_android.Prelude.Run.{Run, Ends, ends, ended}
use upy_android.Litert.{
  Node, CompiledModel, World, Obj, Compile, environment_make_new, environment_close,
  compiled_model_make_new, model_close, close_all,
}
use upy_android.Litert.Tensors.{Api, shape_of}
use upy_android.Litert.Running.{Answers, Result, run}
use upy_android.Litert.Running.Lists.{has_address, Apart}
use upy_android.Litert.Running.Closing.{nodes_of}
use upy_android.Litert.Inv.{Inv, Owns}
use upy_android.Litert.Objects.{
  Leaves, environment_make_new-Inv, environment_close-Inv, model_close-Inv,
}
use upy_android.Litert.Making.{IsNew, compiled_model_make_new-Inv, shape_of-Inv, run-Inv}

abbrev pub no_model : CompiledModel
no_model = record { node = none; path = none }

-- `litert_close_all` and the end of the interpreter, whose heap has all the objects.
pub reset : World → World
unfolding close_all
reset w = record (close_all w) { environment_objs = λ i. none; model_objs = λ i. no_model }

-- One call of a script, a finaliser, or the reset.
pub data Moves : World → World → Type 1 where
  environment_made :
      {w w' : World} (made : Option Node) (object : Option ℕ) (r : Outcome ℕ)
      → ((n : Node) → made ≡ some n → has_address n.address w.environments ≡ false)
      → environment_make_new made object w ≡ ended r w'
      → Moves w w'
  environment_closed :
      {w w' : World} (self : ℕ) (ok : Bool) (r : Outcome (Unit {0}))
      → environment_close self ok w ≡ ended r w'
      → Moves w w'
  model_made :
      {w w' : World} (env path : Obj) (options : Option Obj) (compile : Compile) (object : Option ℕ)
      (r : Outcome ℕ)
      → IsNew compile w
      → compiled_model_make_new env path options compile object w ≡ ended r w'
      → Moves w w'
  model_closed :
      {w w' : World} (self : ℕ) (ok : Bool) (r : Outcome (Unit {0}))
      → model_close self ok w ≡ ended r w'
      → Moves w w'
  shape_asked :
      {w w' : World} (api : Api) (self : ℕ) (is_output : Bool) (index : ℤ)
      (r : Outcome (Option (List ℤ)))
      → shape_of api self is_output index w ≡ ended r w'
      → Moves w w'
  model_run :
      {w w' : World} (item_size : ℕ → ℕ) (answers : Answers) (self : ℕ) (args : List Obj)
      (r : Outcome Result)
      → Apart (nodes_of answers.inputs ++ nodes_of answers.outputs)
      → run item_size answers self args w ≡ ended r w'
      → Moves w w'
  was_reset : {w : World} → Moves w (reset w)

abbrev pub start : World
start = record {
  environment_objs = λ i. none;
  model_objs = λ i. no_model;
  buffers = [];
  models = [];
  environments = [];
  c_environments = 0;
  c_models = 0;
  log = [];
}

pub data Reached : World → Type 1 where
  at_start : Reached start
  moved : {w w' : World} → Reached w → Moves w w' → Reached w'

ended_with :
    {A : Type 0} {Q : Outcome A → World → Type 0} (r : Run World A) (o : Outcome A) (w : World)
    → Ends Q r
    → r ≡ ended o w
    → Q o w
ended_with {Q} r o w h e = last (subst (Ends Q) e h)
  where
    last : Ends Q (ended o w) → Q o w
    last (ends q) = q

pub none-Owns : (ns : List Node) → Owns (λ i. none) ns
none-Owns ns = record { listed = λ i a p. ground (arith, p); own = λ i j a p. ground (arith, p) }

moves_Inv : {w w' : World} → Moves w w' → Inv w → Inv w'
unfolding reset
moves_Inv (environment_made made object r fresh e) v =
    ended_with _ r _ (environment_make_new-Inv made object _ fresh v) e
moves_Inv (environment_closed self ok r e) v =
    ended_with _ r _ (environment_close-Inv self ok _ v) e
moves_Inv (model_made env path options compile object r fresh e) v =
    ended_with _ r _ (compiled_model_make_new-Inv env path options compile object _ fresh v) e
moves_Inv (model_closed self ok r e) v = ended_with _ r _ (model_close-Inv self ok _ v) e
moves_Inv (shape_asked api self is_output index r e) v =
    ended_with _ r _ (shape_of-Inv api self is_output index _ v) e
moves_Inv (model_run item_size answers self args r apart e) v =
    ended_with _ r _ (run-Inv item_size answers self args _ apart v) e
moves_Inv was_reset v = record { environments = none-Owns []; models = none-Owns [] }

-- After any sequence of calls in which each new node of an environment or a model is not in use, and those of a
-- run differ: each Environment and CompiledModel that is open has a node of its own in its list.
pub reached_Inv : {w : World} → Reached w → Inv w
reached_Inv at_start = record { environments = none-Owns []; models = none-Owns [] }
reached_Inv (moved r m) = moves_Inv m (reached_Inv r)

-- In a state that calls can reach, each call ends without reading a freed node, by a value or an exception,
-- and leaves each open object with a node of its own in its list: opening and closing an environment or a
-- model, or finalising it, asking for a shape, and running a model. The new node of an environment or a
-- model is not in use, and those of a run differ.
pub calls_end :
    {w : World} (made : Option Node) (object : Option ℕ) (self : ℕ) (ok : Bool) (env path : Obj)
    (options : Option Obj) (compile : Compile) (api : Api) (is_output : Bool) (index : ℤ)
    (item_size : ℕ → ℕ) (answers : Answers) (args : List Obj)
    → Reached w
    → ((n : Node) → made ≡ some n → has_address n.address w.environments ≡ false)
    → IsNew compile w
    → Apart (nodes_of answers.inputs ++ nodes_of answers.outputs)
    → Ends Leaves (environment_make_new made object w)
      × Ends Leaves (environment_close self ok w)
      × Ends Leaves (compiled_model_make_new env path options compile object w)
      × Ends Leaves (model_close self ok w)
      × Ends Leaves (shape_of api self is_output index w)
      × Ends Leaves (run item_size answers self args w)
calls_end made object self ok env path options compile api is_output index item_size answers args h
      fresh new apart =
    let v = reached_Inv h in
    (
      environment_make_new-Inv made object _ fresh v,
      environment_close-Inv self ok _ v,
      compiled_model_make_new-Inv env path options compile object _ new v,
      model_close-Inv self ok _ v,
      shape_of-Inv api self is_output index _ v,
      run-Inv item_size answers self args _ apart v,
    )
