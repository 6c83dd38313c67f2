-- ===== src/Litert/Running/Tests.antt =====
-- Runs of the litert module: one model with one input and one output of two floats.
use upy_android.Prelude.{
  ℕ, ◌≡◌, refl, true, false, none, some, List, [], ◌∷◌, ◌++◌, ◌==◌, if◌then◌else◌, length, arith,
}
use upy_android.Prelude.Ints.{pos}
use upy_android.Prelude.Words.{update}
use upy_android.Prelude.Raise.{returned, raised, value_error}
use upy_android.Prelude.Run.{ended, Ends}
use upy_android.Litert.{
  Node, buffer, environment, model, created, used, closed, written, ran, World, Obj, array, str,
  environment_obj, environment_make_new, environment_close, compiled_model_make_new, Compile,
  model_close, close_all, ref_at,
}
use upy_android.Litert.Tensors.{
  Api, float32, tensor_element_type, tensor_shape, tensor_element_count, check_input_size, shape_of,
}
use upy_android.Litert.Tensors.Balance.{Checked, Leaves, questions_balanced}
use upy_android.Litert.Running.{
  Answers, single, run, write_inputs, run_guarded, write_array_to_buffer, read_buffer_as_array,
  global_refs,
}
use upy_android.Litert.Running.Closing.{AllClosed, run_closes}
use upy_android.Litert.Running.Strict.{AllFit, run_strict}
use upy_android.Litert.Objects
use upy_android.Litert.Order.{closings, OnlyEnvironment, close_order}
use mathlib.Core.Path.{subst}
use upy_android.Litert.Moves.{
  start, Reached, at_start, moved, environment_made, reached_Inv, calls_end,
}

abbrev floats : Api
floats = record {
  create_environment = true;
  create_model = λ path. true;
  signature = true;
  tensor = λ is_output i. true;
  type_id = some false;
  unranked = none;
  ranked = some (float32, pos 1 ∷ pos 2 ∷ []);
  room = true;
}

abbrev item_size : ℕ → ℕ
item_size t = if t == b'f' then 4 else 1

abbrev answers : Answers
answers = record {
  inputs = some (record { address = 30; raw_handle = 1; global_ref = 300 } ∷ []);
  outputs = some (record { address = 31; raw_handle = 2; global_ref = 301 } ∷ []);
  write = λ i. true;
  runs = true;
  read = λ i. some (7 ∷ 8 ∷ []);
  inspect = λ is_output i. floats;
  fits = λ i. true;
  items_fit = true;
  tuple_fits = true;
}

-- The model at 5 has its node at 20.
abbrev one_model : World
one_model = record {
  environment_objs = update (λ i. none) 4 (some 10);
  model_objs =
      update (λ i. record { node = none; path = none }) 5
        (record { node = some 20; path = some (b'm' ∷ []) });
  buffers = [];
  models = record { address = 20; raw_handle = 3; global_ref = 200 } ∷ [];
  environments = record { address = 10; raw_handle = 4; global_ref = 100 } ∷ [];
  c_environments = 0;
  c_models = 0;
  log = [];
}

abbrev two_floats : List Obj
two_floats = array (record { typecode = b'f'; len = 8; readable = true }) ∷ []

abbrev three_floats : List Obj
three_floats = array (record { typecode = b'f'; len = 12; readable = true }) ∷ []

abbrev after_run : World
after_run = record one_model {
  log =
      closed buffer 301
      ∷ closed buffer 300
      ∷ used buffer 301
      ∷ ran 200 (300 ∷ []) (301 ∷ [])
      ∷ written 300 b'f' 2
      ∷ created buffer 301
      ∷ used model 200
      ∷ created buffer 300
      ∷ used model 200
      ∷ [];
}

run_runs :
    run item_size answers 5 two_floats one_model
    ≡ ended (returned (single (record { typecode = b'f'; items = 7 ∷ 8 ∷ [] }))) after_run
unfolding run write_inputs run_guarded write_array_to_buffer read_buffer_as_array global_refs
    check_input_size tensor_element_count tensor_element_type
run_runs = refl

too_many_runs :
    run item_size answers 5 three_floats one_model
    ≡ ended (raised value_error) (record one_model {
      log =
          closed buffer 301
          ∷ closed buffer 300
          ∷ created buffer 301
          ∷ used model 200
          ∷ created buffer 300
          ∷ used model 200
          ∷ [];
    })
unfolding run write_inputs run_guarded write_array_to_buffer read_buffer_as_array global_refs
    check_input_size tensor_element_count tensor_element_type
too_many_runs = refl

live_node :
    (a : ℕ)
    → (one_model.model_objs 5).node ≡ some a
    → (r : ℕ) × (ref_at a one_model.models ≡ some r)
unfolding ref_at
live_node a e = (
  200,
  let h : 20 ≡ a = ground (arith, e) in subst (λ k. ref_at k one_model.models ≡ some 200) h refl,
)

run_closes_example : Ends (AllClosed one_model) (run item_size answers 5 three_floats one_model)
run_closes_example =
    run_closes item_size answers 5 one_model three_floats live_node (refl, (refl, tt))

run_strict_example :
    (ins : List Node) × ((answers.inputs ≡ some ins)
      × ((length ins ≡ length two_floats) × AllFit item_size answers 0 two_floats))
run_strict_example =
    run_strict item_size answers 5 two_floats one_model
      (single (record { typecode = b'f'; items = 7 ∷ 8 ∷ [] })) after_run run_runs

abbrev no_room : Api
no_room = record floats { room = false }

questions_balanced_example :
    Ends (Checked one_model) (tensor_element_type no_room 5 false (pos 0) one_model)
    × Ends (Leaves true one_model) (tensor_shape no_room 5 false (pos 0) one_model)
questions_balanced_example = questions_balanced no_room 5 false (pos 0) one_model

abbrev new_node : Node
new_node = record { address = 10; raw_handle = 4; global_ref = 100 }

abbrev with_environment : World
with_environment = record start {
  environment_objs = update (λ i. none) 4 (some 10);
  environments = new_node ∷ [];
  log = created environment 100 ∷ [];
}

made_runs :
    environment_make_new (some new_node) (some 4) start ≡ ended (returned 4) with_environment
unfolding environment_make_new
made_runs = refl

environment_reached : Reached with_environment
environment_reached =
    moved at_start (environment_made (some new_node) (some 4) (returned 4) (λ n e. refl) made_runs)

abbrev compiled : Compile
compiled r path a b = some (record { address = 20; raw_handle = 3; global_ref = 200 })

calls_end_example :
    Ends Objects.Leaves (environment_make_new none (some 4) with_environment)
    × Ends Objects.Leaves (environment_close 4 true with_environment)
    × Ends Objects.Leaves (
        compiled_model_make_new
          (environment_obj 4)
          (str [])
          none
          compiled
          (some 4)
          with_environment)
    × Ends Objects.Leaves (model_close 4 true with_environment)
    × Ends Objects.Leaves (shape_of floats 4 false (pos 0) with_environment)
    × Ends Objects.Leaves (run item_size answers 4 two_floats with_environment)
calls_end_example =
    calls_end none (some 4) 4 true (environment_obj 4) (str []) none compiled floats false (pos 0)
      item_size answers two_floats environment_reached (λ n e. ground (arith, e))
      (λ r p a b n e. refl) (refl, (refl, tt))

close_order_example :
    ((close_all with_environment).log
      ≡ closings environment with_environment.environments
        ++ (closings model [] ++ (closings buffer [] ++ with_environment.log)))
    × (((close_all with_environment).environments ≡ [])
        × (((close_all with_environment).models ≡ [])
            × ((close_all with_environment).buffers ≡ [])))
    × ((ref : ℕ) × ((ref_at 10 with_environment.environments ≡ some ref)
          × Ends
              (OnlyEnvironment ref with_environment)
              (environment_close 4 true with_environment)))
close_order_example = close_order with_environment 4 10 true (reached_Inv environment_reached) refl
