-- ===== src/Litert/Running.antt =====
-- `litert_compiled_model_run`: the buffers that it creates, the arrays that go into and come out of them, and
-- its handler, which closes the buffers whatever is raised.
pub mod Lists
pub mod Keeping
pub mod Body
pub mod Buffers
pub mod Closing
pub mod Strict
mod Tests
use upy_android.Prelude.{
  ℕ, ◌+◌, ◌/◌, Bool, true, false, Option, none, some, List, [], ◌∷◌, ◌==◌, if◌then◌else◌, length,
}
use upy_android.Prelude.Ints.{pos}
use upy_android.Prelude.Raise.{os_error, einval, eio, value_error, type_error, memory_error}
use upy_android.Prelude.Run.{M, pure, or_raise, check, on_raise, ◌>>=◌, ◌>>◌}
use upy_android.Litert.{
  Node, buffer, model, created, used, closed, written, ran, World, record_event, registry_add,
  registry_remove, global_ref, Array, Obj, environment_obj, options_obj, str, array, other,
}
use upy_android.Litert.Tensors.{
  ElementType, float32, int8, int32, int64, bool, other_type, Api, tensor_element_type,
  raise_if_model_closed, check_input_size,
}

-- What a run is answered: the buffers, with the addresses of their nodes; for each input whether it is written,
-- whether the model runs, and for each output what is read; the C API, asked about an output or an input; and
-- whether the memory for an output's array, for the items of the tuple, and for the tuple is there.
pub record Answers : Type 0 where
  pub inputs : Option (List Node)
  pub outputs : Option (List Node)
  pub write : ℕ → Bool
  pub runs : Bool
  pub read : ℕ → Option (List ℕ)
  pub inspect : Bool → ℕ → Api
  pub fits : ℕ → Bool
  pub items_fit : Bool
  pub tuple_fits : Bool

-- The loop of `create_buffer_set`.
abbrev pub add_nodes : List Node → M World (Unit {0})
add_nodes [] = pure tt
add_nodes (n ∷ ns) = do
  record_event (created buffer n.global_ref)
  registry_add buffer n
  add_nodes ns

-- `create_buffer_set` for the model at a node
pub create_buffer_set : ℕ → Option (List Node) → M World (List Node)
unfolding global_ref
create_buffer_set node made = do
  ref ← global_ref model node
  record_event (used model ref)
  ns ← or_raise (os_error eio) made
  add_nodes ns
  pure ns

-- `close_buffer_set`
pub close_buffer_set : List Node → M World (Unit {0})
unfolding global_ref registry_remove
close_buffer_set [] = pure tt
close_buffer_set (n ∷ ns) = do
  ref ← global_ref buffer n.address
  record_event (closed buffer ref)
  registry_remove buffer n.address
  close_buffer_set ns

-- The number of items of an array of this typecode; `none` for a typecode that the bridge does not take.
abbrev pub items_of : ℕ → ℕ → Option ℕ
items_of typecode len =
    if typecode == b'f'
    then some (len / 4)
    else if typecode == b'b'
    then some len
    else if typecode == b'i'
    then some (len / 4)
    else if typecode == b'q'
    then some (len / 8)
    else if typecode == b'B'
    then some len
    else none

abbrev pub get_array : Obj → Option Array
get_array (array a) = some a
get_array (environment_obj a) = none
get_array (options_obj a b) = none
get_array (str cs) = none
get_array (other a) = none

-- `write_array_to_buffer`
pub write_array_to_buffer : ℕ → Obj → Bool → M World (Unit {0})
unfolding global_ref
write_array_to_buffer node arr ok = do
  a ← or_raise (os_error einval) (get_array arr)
  check a.readable type_error
  count ← or_raise (os_error einval) (items_of a.typecode a.len)
  ref ← global_ref buffer node
  record_event (written ref a.typecode count)
  check ok (os_error eio)

-- An array that a run returns.
pub record Output : Type 0 where
  pub typecode : ℕ
  pub items : List ℕ

abbrev pub typecode_of : ElementType → Option ℕ
typecode_of float32 = some b'f'
typecode_of int8 = some b'b'
typecode_of int32 = some b'i'
typecode_of int64 = some b'q'
typecode_of bool = some b'B'
typecode_of (other_type t) = none

-- `read_buffer_as_array`
pub read_buffer_as_array : Answers → ℕ → ℕ → ℕ → M World Output
unfolding global_ref
read_buffer_as_array answers self node index = do
  t ← tensor_element_type (answers.inspect true index) self true (pos index)
  typecode ← or_raise (os_error einval) (typecode_of t)
  ref ← global_ref buffer node
  record_event (used buffer ref)
  items ← or_raise (os_error eio) (answers.read index)
  check (answers.fits index) memory_error
  pure (record { typecode = typecode; items = items })

pub data Result : Type 0 where
  single : Output → Result
  tuple : List Output → Result

-- The loops that collect the references of a set.
pub global_refs : List Node → M World (List ℕ)
unfolding global_ref
global_refs [] = pure []
global_refs (n ∷ ns) = do
  ref ← global_ref buffer n.address
  refs ← global_refs ns
  pure (ref ∷ refs)

-- What the handler does, and the end of a run too.
abbrev pub close_both : List Node → List Node → M World (Unit {0})
close_both inputs outputs = do close_buffer_set inputs; close_buffer_set outputs

module _ (item_size : ℕ → ℕ) (answers : Answers) (self : ℕ) where
  -- The loop over the inputs, from the `i`th on.
  pub write_inputs : ℕ → List Node → List Obj → M World (Unit {0})
  write_inputs i [] args = pure tt
  write_inputs i (n ∷ ns) [] = pure tt
  write_inputs i (n ∷ ns) (arr ∷ args) = do
    check_input_size item_size (answers.inspect false i) self (pos i) arr
    write_array_to_buffer n.address arr (answers.write i)
    write_inputs (i + 1) ns args

  -- The loop over the outputs, from the `i`th on.
  pub read_outputs : ℕ → List Node → M World (List Output)
  read_outputs i [] = pure []
  read_outputs i (n ∷ ns) = do
    o ← read_buffer_as_array answers self n.address i
    os ← read_outputs (i + 1) ns
    pure (o ∷ os)

  -- The tuple of the outputs.
  pub read_tuple : List Node → M World Result
  unfolding read_outputs
  read_tuple ns = do
    check answers.items_fit memory_error
    os ← read_outputs 0 ns
    check answers.tuple_fits memory_error
    pure (tuple os)

  abbrev pub result : List Node → M World Result
  result [] = read_tuple []
  result (n ∷ []) = do o ← read_buffer_as_array answers self n.address 0; pure (single o)
  result (n ∷ k ∷ ns) = read_tuple (n ∷ k ∷ ns)

  -- What the handler of `litert_compiled_model_run` guards once both sets are there.
  pub run_guarded : ℕ → List Node → List Node → List Obj → M World Result
  unfolding global_ref
  run_guarded node inputs outputs args = do
    check (length inputs == length args) value_error
    write_inputs 0 inputs args
    input_refs ← global_refs inputs
    output_refs ← global_refs outputs
    ref ← global_ref model node
    record_event (ran ref input_refs output_refs)
    check answers.runs (os_error eio)
    result outputs

  -- `litert_compiled_model_run`
  pub run : List Obj → M World Result
  unfolding create_buffer_set close_buffer_set run_guarded
  run args = do
    node ← raise_if_model_closed self
    inputs ← on_raise (create_buffer_set node answers.inputs) (close_both [] [])
    outputs ← on_raise (create_buffer_set node answers.outputs) (close_both inputs [])
    r ← on_raise (run_guarded node inputs outputs args) (close_both inputs outputs)
    close_both inputs outputs
    pure r
