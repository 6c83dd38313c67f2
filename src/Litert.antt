-- ===== src/Litert.antt =====
-- app/src/main/cpp/litert_module.cpp: the litert module, which runs models by LiteRT. LiteRtShim stands behind
-- litert_jni_bridge.h, as does LiteRT behind its C API: their answers are arguments. `log` holds what is
-- done with the global references, the latest first.
pub mod Tensors
pub mod Running
pub mod Version
pub mod Inv
pub mod Objects
pub mod Order
pub mod Making
pub mod Moves
use upy_android.Prelude.{
  ℕ, Bool, true, false, Option, none, some, List, [], ◌∷◌, ◌==◌, ◌&&◌, not, if◌then◌else◌,
}
use upy_android.Prelude.Ints.{ℤ, pos, negsuc}
use upy_android.Prelude.Words.{update}
use upy_android.Prelude.Raise.{Exn, os_error, einval, eio, value_error, type_error, memory_error}
use upy_android.Prelude.Run.{M, pure, raise, get, or_raise, or_fault, modify, check, ◌>>=◌, ◌>>◌}

-- `LitertHandleNode`, at its address.
pub record Node : Type 0 where
  pub address : ℕ
  pub raw_handle : ℕ
  pub global_ref : ℕ

pub data Kind : Type 0 where
  buffer model environment : Kind

-- What is done with a global reference of a kind: the bridge makes it, uses it for another call, or closes
-- what it refers to; an array that is written to a buffer comes with its typecode and its number of items,
-- and a run of a model with its buffers for inputs and outputs.
pub data Event : Type 0 where
  created used closed : Kind → ℕ → Event
  written : ℕ → ℕ → ℕ → Event
  ran : ℕ → List ℕ → List ℕ → Event

-- `litert_compiled_model_obj_t`; `none` stands for null.
pub record CompiledModel : Type 0 where
  pub node : Option ℕ
  pub path : Option (List ℕ)

-- The objects by their addresses, of which an Environment is just its node; the lists `g_litert_buffers`,
-- `g_litert_models` and `g_litert_environments`, where a node is allocated while it is in its list; and how
-- many environments and models are open at LiteRT's C API.
pub record World : Type 0 where
  pub environment_objs : ℕ → Option ℕ
  pub model_objs : ℕ → CompiledModel
  pub buffers : List Node
  pub models : List Node
  pub environments : List Node
  pub c_environments : ℕ
  pub c_models : ℕ
  pub log : List Event

abbrev pub list_of : Kind → World → List Node
list_of buffer w = w.buffers
list_of model w = w.models
list_of environment w = w.environments

abbrev pub with_list : Kind → List Node → World → World
with_list buffer ns w = record w { buffers = ns }
with_list model ns w = record w { models = ns }
with_list environment ns w = record w { environments = ns }

abbrev pub record_event : Event → M World (Unit {0})
record_event e = modify (λ w. record w { log = e ∷ w.log })

-- `registry_add`
abbrev pub registry_add : Kind → Node → M World (Unit {0})
registry_add k n = modify (λ w. with_list k (n ∷ list_of k w) w)

pub remove_node : ℕ → List Node → List Node
remove_node address [] = []
remove_node address (n ∷ ns) =
    let rest = remove_node address ns in if n.address == address then ns else n ∷ rest

-- `registry_remove`
pub registry_remove : Kind → ℕ → M World (Unit {0})
unfolding remove_node
registry_remove k address = modify (λ w. with_list k (remove_node address (list_of k w)) w)

-- `node->global_ref`; `none` where the node has been freed.
pub ref_at : ℕ → List Node → Option ℕ
ref_at address [] = none
ref_at address (n ∷ ns) =
    let rest = ref_at address ns in if n.address == address then some n.global_ref else rest

pub global_ref : Kind → ℕ → M World ℕ
unfolding ref_at
global_ref k address w = or_fault (ref_at address (list_of k w)) w

-- An `array.array`: its typecode, the bytes that `mp_get_buffer_raise` counts, and whether that call gives
-- the buffer.
pub record Array : Type 0 where
  pub typecode : ℕ
  pub len : ℕ
  pub readable : Bool

-- Python objects, as far as the module looks at them.
pub data Obj : Type 0 where
  environment_obj : ℕ → Obj
  options_obj : ℤ → ℤ → Obj
  str : List ℕ → Obj
  array : Array → Obj
  other : ℕ → Obj

-- `litert_environment_make_new`: what the bridge makes, at the address of the new node, and the address of the
-- object, where its allocation does not raise.
unfoldable pub environment_make_new : Option Node → Option ℕ → M World ℕ
environment_make_new made object = do
  n ← or_raise (os_error einval) made
  record_event (created environment n.global_ref)
  self ← or_raise memory_error object
  registry_add environment n
  modify (λ w. record w { environment_objs = update w.environment_objs self (some n.address) })
  pure self

abbrev pub forget_environment : ℕ → M World (Unit {0})
forget_environment self =
    modify (λ w. record w { environment_objs = update w.environment_objs self none })

abbrev pub close_environment_at : ℕ → Bool → Option ℕ → M World (Unit {0})
close_environment_at self ok none = pure tt
close_environment_at self ok (some node) = do
  ref ← global_ref environment node
  record_event (closed environment ref)
  registry_remove environment node
  forget_environment self
  check ok (os_error eio)

-- `litert_environment_close_impl`, which `litert_environment_close` and the finaliser call; `ok` is the
-- bridge's answer.
pub environment_close : ℕ → Bool → M World (Unit {0})
unfolding global_ref registry_remove
environment_close self ok = do
  node ← get (λ w. w.environment_objs self)
  close_environment_at self ok node

abbrev pub is_int : ℤ → ℕ → Bool
is_int (pos m) n = m == n
is_int (negsuc m) n = false

-- `litert_options_make_new`: the object's two numbers are its value.
pub options_make_new : ℤ → ℤ → M World Obj
options_make_new accelerator backend = do
  check (not (not (is_int backend 0) && not (is_int backend 1) && not (is_int backend 3)))
      value_error
  check (not (not (is_int backend 0) && not (is_int accelerator 2))) value_error
  pure (options_obj accelerator backend)

abbrev pub get_str : Obj → Option (List ℕ)
get_str (str cs) = some cs
get_str (environment_obj a) = none
get_str (options_obj a b) = none
get_str (array a) = none
get_str (other a) = none

abbrev pub get_environment : Obj → Option ℕ
get_environment (environment_obj a) = some a
get_environment (options_obj a b) = none
get_environment (str cs) = none
get_environment (array a) = none
get_environment (other a) = none

-- The accelerator and the backend of the argument `options`: CPU and AUTOMATIC where it is not given.
abbrev pub get_options : Option Obj → Option (ℤ × ℤ)
get_options none = some (pos 1, pos 0)
get_options (some (options_obj a b)) = some (a, b)
get_options (some (environment_obj a)) = none
get_options (some (str cs)) = none
get_options (some (array a)) = none
get_options (some (other a)) = none

-- The path without its leading slash.
abbrev pub strip_slash : List ℕ → List ℕ
strip_slash [] = []
strip_slash (c ∷ cs) = if c == b'/' then cs else c ∷ cs

-- `(int)` of an `mp_int_t` is the bridge's.
abbrev pub Compile : Type 0
Compile = ℕ → List ℕ → ℤ → ℤ → Option Node

-- `litert_compiled_model_make_new`
pub compiled_model_make_new : Obj → Obj → Option Obj → Compile → Option ℕ → M World ℕ
unfolding global_ref
compiled_model_make_new env path options compile object = do
  env_obj ← or_raise (os_error einval) (get_environment env)
  open_node ← get (λ w. w.environment_objs env_obj)
  node ← or_raise (os_error einval) open_node
  name ← or_raise type_error (get_str path)
  (accelerator, backend) ← or_raise (os_error einval) (get_options options)
  ref ← global_ref environment node
  record_event (used environment ref)
  n ← or_raise (os_error einval) (compile ref (strip_slash name) accelerator backend)
  record_event (created model n.global_ref)
  self ← or_raise memory_error object
  registry_add model n
  modify (λ w. record w {
    model_objs =
        update w.model_objs self (record { node = some n.address; path = some (strip_slash name) });
  })
  pure self

abbrev pub close_model_at : ℕ → Bool → Option ℕ → M World (Unit {0})
close_model_at self ok none = pure tt
close_model_at self ok (some node) = do
  modify (λ w. record w {
    model_objs = update w.model_objs self (record { node = none; path = none });
  })
  ref ← global_ref model node
  record_event (closed model ref)
  registry_remove model node
  check ok (os_error eio)

-- `litert_compiled_model_close_impl`, which `litert_compiled_model_close` and the finaliser call.
pub model_close : ℕ → Bool → M World (Unit {0})
unfolding global_ref registry_remove
model_close self ok = do m ← get (λ w. w.model_objs self); close_model_at self ok m.node

-- A loop of `litert_close_all`.
pub close_list : Kind → List Node → List Event → List Event
close_list k [] log = log
close_list k (n ∷ ns) log = close_list k ns (closed k n.global_ref ∷ log)

-- `litert_close_all`
unfoldable pub close_all : World → World
unfolding close_list
close_all w = record w {
  buffers = [];
  models = [];
  environments = [];
  log =
      close_list environment w.environments
        (close_list model w.models (close_list buffer w.buffers w.log));
}
