-- ===== src/Litert/Running/Strict.antt =====
-- What a run that returns has checked of its arguments.
use upy_android.Prelude.{
  ℕ, ◌+◌, ◌/◌, ◌^◌, ◌<◌, ◌≡◌, ap, ◌∙◌, Bool, false, Option, none, some, List, [], ◌∷◌, ◌==◌, arith,
  length, ==_iff,
}
use upy_android.Prelude.Ints.{ℤ, pos}
use upy_android.Prelude.Raise.{os_error, einval, eio, value_error, type_error, returned, Exn}
use mathlib.Core.Path.{subst}
use upy_android.Prelude.Run.{
  ended, check, or_raise, on_raise, pure, ◌>>=◌, ◌>>◌, returned_from, returned_on_raise,
}
use upy_android.Litert.{
  World, Node, model, used, global_ref, record_event, Array, Obj, array, environment_obj,
  options_obj, str, other,
}
use upy_android.Litert.Tensors.{ElementType, Api, check_input_size, raise_if_model_closed}
use upy_android.Litert.Tensors.Counting.{elements, Positive, checked, input_size_lem}
use upy_android.Litert.Running.{
  Answers, get_array, items_of, write_array_to_buffer, write_inputs, create_buffer_set, close_both,
  add_nodes, Result, run_guarded, run,
}

-- An argument is an array of one of the five typecodes, and where the tensor has a static shape, its number of
-- items is the number of elements.
pub record FitsTensor (item_size : ℕ → ℕ) (api : Api) (a : Array) : Type 0 where
  pub count : ℕ
  pub taken : items_of a.typecode a.len ≡ some count
  pub sized :
      (t : ElementType) (dims : List ℤ)
      → api.type_id ≡ some false
      → api.ranked ≡ some (t, dims)
      → Positive dims
      → elements dims < 2 ^ 63
      → a.len / item_size a.typecode ≡ elements dims

-- The arguments from the `i`th on.
abbrev pub AllFit : (ℕ → ℕ) → Answers → ℕ → List Obj → Type 0
AllFit item_size answers i [] = Unit {0}
AllFit item_size answers i (arr ∷ args) =
    ((a : Array) × ((arr ≡ array a) × FitsTensor item_size (answers.inspect false i) a))
    × AllFit item_size answers (i + 1) args

or_raise_returned :
    {A : Type 0} (o : Option A) (x : Exn) (w : World) (a : A) (w' : World)
    → or_raise x o w ≡ ended (returned a) w'
    → o ≡ some a
or_raise_returned none x w a w' e = absurd (ground (arith, e))
or_raise_returned (some b) x w a w' e = ground (arith, e)

get_array_lem : (arr : Obj) (a : Array) → get_array arr ≡ some a → arr ≡ array a
get_array_lem (array b) a e = ground (arith, e)
get_array_lem (environment_obj b) a e = absurd (ground (arith, e))
get_array_lem (options_obj b c) a e = absurd (ground (arith, e))
get_array_lem (str cs) a e = absurd (ground (arith, e))
get_array_lem (other b) a e = absurd (ground (arith, e))

-- A write that returns has an array of a typecode that the bridge takes.
written_array :
    (node : ℕ) (arr : Obj) (ok : Bool) (w : World) (u : Unit {0}) (w' : World)
    → write_array_to_buffer node arr ok w ≡ ended (returned u) w'
    → (a : Array) × ((arr ≡ array a) × ((c : ℕ) × (items_of a.typecode a.len ≡ some c)))
unfolding write_array_to_buffer
written_array node arr ok w u w' e =
    let (a, (v, (e1, e2))) = returned_from (or_raise (os_error einval) (get_array arr) w) _ e in
    let (t, (v1, (e3, e4))) = returned_from (check a.readable type_error v) _ e2 in
    let (c, (v2, (e5, e6))) =
      returned_from (or_raise (os_error einval) (items_of a.typecode a.len) v1) _ e4 in
    (
      a,
      (
        get_array_lem arr a (or_raise_returned (get_array arr) (os_error einval) w a v e1),
        (c, or_raise_returned (items_of a.typecode a.len) (os_error einval) v1 c v2 e5),
      ),
    )

made_from :
    (answer : Option (List Node)) (node : ℕ) (w : World) (ns : List Node) (w' : World)
    → create_buffer_set node answer w ≡ ended (returned ns) w'
    → answer ≡ some ns
unfolding create_buffer_set
made_from answer node w ns w' e =
    let add = λ (ns : List Node). add_nodes ns >> pure ns in
    let use_model =
      λ (ref : ℕ). record_event (used model ref) >> (or_raise (os_error eio) answer >>= add) in
    let (ref, (v, (e1, e2))) = returned_from (global_ref model node w) use_model e in
    let (ms, (v1, (e3, e4))) =
      returned_from (or_raise (os_error eio) answer (record v { log = used model ref ∷ v.log })) add
        e2 in
    let (u, (v2, (e5, e6))) = returned_from (add_nodes ms v1) (λ t. pure ms) e4 in
    or_raise_returned answer (os_error eio) _ ms v1 e3 ∙ ap some (ground (arith, e6))

module _ (item_size : ℕ → ℕ) (answers : Answers) (self : ℕ) where
  written_inputs :
      (i : ℕ) (ns : List Node) (args : List Obj) (w : World) (u : Unit {0}) (w' : World)
      → length ns ≡ length args
      → write_inputs item_size answers self i ns args w ≡ ended (returned u) w'
      → AllFit item_size answers i args
  unfolding write_inputs
  written_inputs i [] [] w u w' l e = tt
  written_inputs i [] (arr ∷ args) w u w' l e = absurd (omega (arith, l))
  written_inputs i (n ∷ ns) [] w u w' l e = tt
  written_inputs i (n ∷ ns) (arr ∷ args) w u w' l e =
      let api = answers.inspect false i in
      let (u1, (v, (e1, e2))) =
        returned_from (check_input_size item_size api self (pos i) arr w) _ e in
      let (u2, (v1, (e3, e4))) =
        returned_from (write_array_to_buffer n.address arr (answers.write i) v) _ e2 in
      let (a, (is_a, (c, takes))) = written_array n.address arr (answers.write i) v u2 v1 e3 in
      let sized_by : check_input_size item_size api self (pos i) (array a) w
          ≡ ended (returned u1) v =
        subst (λ o. check_input_size item_size api self (pos i) o w ≡ ended (returned u1) v) is_a
          e1 in
      (
        (
          a,
          (
            is_a,
            record {
              count = c;
              taken = takes;
              sized = λ t dims typed ranked positive fits.
                  input_size_lem api t dims typed ranked positive fits item_size self (pos i) a w u1
                    v sized_by;
            },
          ),
        ),
        written_inputs (i + 1) ns args v1 u w' (omega (arith, l)) e4,
      )

  guarded_fits :
      (node : ℕ) (ins outs : List Node) (args : List Obj) (w : World) (r : Result) (w' : World)
      → run_guarded item_size answers self node ins outs args w ≡ ended (returned r) w'
      → (length ins ≡ length args) × AllFit item_size answers 0 args
  unfolding run_guarded
  guarded_fits node ins outs args w r w' e =
      let (u, (v, (e1, e2))) =
        returned_from (check (length ins == length args) value_error w) _ e in
      let same =
        (==_iff (length ins) (length args)).0
          (checked w (length ins == length args) value_error u v e1) in
      let (u1, (v1, (e3, e4))) =
        returned_from (write_inputs item_size answers self 0 ins args v) _ e2 in
      (same, written_inputs 0 ins args v u1 v1 same e3)

  -- A run that returns was given one argument for each input, each an array of one of the five typecodes;
  -- and where the C API tells the type of an input, with a static shape of fewer than 2^63 elements, the array
  -- has just as many items as the tensor has elements.
  pub run_strict :
      (args : List Obj) (w : World) (r : Result) (w' : World)
      → run item_size answers self args w ≡ ended (returned r) w'
      → (ins : List Node) × ((answers.inputs ≡ some ins)
          × ((length ins ≡ length args) × AllFit item_size answers 0 args))
  unfolding run create_buffer_set
  run_strict args w r w' e =
      let (node, (v, (e1, e2))) = returned_from (raise_if_model_closed self w) _ e in
      let (ins, (v1, (e3, e4))) =
        returned_from (on_raise (create_buffer_set node answers.inputs) (close_both [] []) v) _
          e2 in
      let (outs, (v2, (e5, e6))) =
        returned_from (on_raise (create_buffer_set node answers.outputs) (close_both ins []) v1) _
          e4 in
      let (r1, (v3, (e7, e8))) =
        returned_from
          (on_raise (run_guarded item_size answers self node ins outs args) (close_both ins outs)
            v2)
          _ e6 in
      let (fits, all) = guarded_fits node ins outs args v2 r1 v3 (
        returned_on_raise (run_guarded item_size answers self node ins outs args v2)
          (close_both ins outs) e7) in
      (
        ins,
        (
          made_from answers.inputs node v ins v1
              (returned_on_raise (create_buffer_set node answers.inputs v) (close_both [] []) e3),
          (fits, all),
        ),
      )
