-- ===== src/Litert/Tensors.antt =====
-- What is asked of a model's file by LiteRT's C API: the type and the shape of a tensor, and whether an input
-- array has as many items.
pub mod Balance
pub mod Counting
use upy_android.Prelude.{
  ℕ, ◌+◌, ◌-◌, ◌*◌, ◌/◌, ◌%◌, ◌^◌, ltb, Bool, true, false, Option, none, some, List, [], ◌∷◌, ◌==◌,
  if◌then◌else◌,
}
use upy_android.Prelude.Ints.{ℤ, pos, negsuc}
use upy_android.Prelude.Raise.{Exn, os_error, einval, eio, value_error, type_error, memory_error}
use upy_android.Prelude.Run.{M, pure, raise, get, or_raise, modify, check, ◌>>=◌, ◌>>◌}
use upy_android.Litert.{World, Array, Obj, environment_obj, options_obj, str, array, other}

-- The values of `LiteRtElementType` that the module knows.
pub data ElementType : Type 0 where
  float32 int8 int32 int64 bool : ElementType
  other_type : ℕ → ElementType

-- What the C API answers to the calls for one tensor: whether an environment and a model come about, whether
-- there is a signature, a tensor of this index among the outputs or the inputs; whether the tensor is
-- unranked; its type; its type and its dimensions; and whether the memory for the tuple is there.
pub record Api : Type 0 where
  pub create_environment : Bool
  pub create_model : Option (List ℕ) → Bool
  pub signature : Bool
  pub tensor : Bool → ℤ → Bool
  pub type_id : Option Bool
  pub unranked : Option ElementType
  pub ranked : Option (ElementType × List ℤ)
  pub room : Bool

abbrev pub destroy_environment : M World (Unit {0})
destroy_environment = modify (λ w. record w { c_environments = w.c_environments - 1 })

-- `LiteRtDestroyModel` and `LiteRtDestroyEnvironment`
abbrev pub destroy : M World (Unit {0})
destroy =
    modify (λ w. record w { c_environments = w.c_environments - 1; c_models = w.c_models - 1 })

-- What an error path does: destroy both, and raise.
module _ {A : Type 0} where
  abbrev pub or_destroy : Exn → Option A → M World A
  or_destroy e none = destroy >> raise e
  or_destroy e (some a) = pure a

abbrev pub or_destroy_both : Bool → Exn → M World (Unit {0})
or_destroy_both true e = pure tt
or_destroy_both false e = destroy >> raise e

abbrev pub or_destroy_one : Bool → Exn → M World (Unit {0})
or_destroy_one true e = modify (λ w. record w { c_models = w.c_models + 1 })
or_destroy_one false e = destroy_environment >> raise e

-- `find_tensor`
pub find_tensor : Api → ℕ → Bool → ℤ → M World (Unit {0})
find_tensor api self is_output index = do
  check api.create_environment (os_error eio)
  modify (λ w. record w { c_environments = w.c_environments + 1 })
  m ← get (λ w. w.model_objs self)
  or_destroy_one (api.create_model m.path) (os_error eio)
  or_destroy_both api.signature (os_error eio)
  or_destroy_both (api.tensor is_output index) (os_error einval)

abbrev pub ranked_type : Api → M World ElementType
ranked_type api = do (t, dims) ← or_destroy (os_error eio) api.ranked; pure t

-- `tensor_element_type`
unfoldable pub tensor_element_type : Api → ℕ → Bool → ℤ → M World ElementType
unfolding find_tensor
tensor_element_type api self is_output index = do
  find_tensor api self is_output index
  unranked ← or_destroy (os_error eio) api.type_id
  t ← if unranked then or_destroy (os_error eio) api.unranked else ranked_type api
  destroy
  pure t

-- The dimensions as a tuple, whose memory may be missing.
abbrev pub ranked_shape : Api → M World (Option (List ℤ))
ranked_shape api = do
  (t, dims) ← or_destroy (os_error eio) api.ranked
  check api.room memory_error
  pure (some dims)

-- `tensor_shape`; `none` is Python's None.
pub tensor_shape : Api → ℕ → Bool → ℤ → M World (Option (List ℤ))
unfolding find_tensor
tensor_shape api self is_output index = do
  find_tensor api self is_output index
  unranked ← or_destroy (os_error eio) api.type_id
  shape ← if unranked then pure none else ranked_shape api
  destroy
  pure shape

abbrev pub raise_if_model_closed : ℕ → M World ℕ
raise_if_model_closed self = do m ← get (λ w. w.model_objs self); or_raise (os_error einval) m.node

-- `litert_compiled_model_input_shape` and `litert_compiled_model_output_shape`
unfoldable pub shape_of : Api → ℕ → Bool → ℤ → M World (Option (List ℤ))
unfolding tensor_shape
shape_of api self is_output index = do
  node ← raise_if_model_closed self
  tensor_shape api self is_output index

-- The loop of `tensor_element_count` from a product of the dimensions before. `count` is the 64 bits of a
-- `long long`, which wrap around; `none` stands for -1.
pub count_from : ℕ → List ℤ → Option ℕ
count_from count [] = some count
count_from count (pos n ∷ dims) =
    let rest = count_from (count * n % 2 ^ 64) dims in if n == 0 then none else rest
count_from count (negsuc n ∷ dims) = none

abbrev pub count_of : Option (List ℤ) → Option ℕ
count_of none = none
count_of (some dims) = count_from 1 dims

-- `tensor_element_count`
unfoldable pub tensor_element_count : Api → ℕ → Bool → ℤ → M World (Option ℕ)
unfolding tensor_shape count_from
tensor_element_count api self is_output index = do
  shape ← tensor_shape api self is_output index
  pure (count_of shape)

-- `want >= 0` is looked at first: bits from 2^63 on are those of a negative number.
abbrev pub same_count : ℕ → Option ℕ → M World (Unit {0})
same_count n none = pure tt
same_count n (some want) = if ltb want (2 ^ 63) then check (n == want) value_error else pure tt

-- `check_input_size`; `item_size` is `mp_binary_get_size`.
unfoldable pub check_input_size : (ℕ → ℕ) → Api → ℕ → ℤ → Obj → M World (Unit {0})
unfolding tensor_element_count
check_input_size item_size api self index (array a) = do
  check a.readable type_error
  want ← tensor_element_count api self false index
  same_count (a.len / item_size a.typecode) want
check_input_size item_size api self index (environment_obj a) = pure tt
check_input_size item_size api self index (options_obj a b) = pure tt
check_input_size item_size api self index (str cs) = pure tt
check_input_size item_size api self index (other a) = pure tt
