-- ===== src/Litert/Tensors/Balance.antt =====
-- The environments and models that the C API opens for a question are destroyed again.
use upy_android.Prelude.{
  ℕ, ◌+◌, ◌-◌, ◌≡◌, refl, ap, ◌∙◌, Bool, true, false, Option, none, some, ◌⊎◌, inl, inr, arith,
  if◌then◌else◌, List, ◌&&◌, not, Bool-cases, Option-cases,
}
use upy_android.Prelude.Ints.{ℤ}
use upy_android.Prelude.Raise.{Exn, os_error, einval, eio, Outcome, returned, raised, memory_error}
use upy_android.Prelude.Run.{Ends, ends, bind, check, pure}
use upy_android.Litert.{World}
use upy_android.Litert.Tensors.{
  Api, ElementType, find_tensor, tensor_element_type, tensor_shape, or_destroy, or_destroy_both,
  or_destroy_one, ranked_type, ranked_shape,
}

abbrev pub opened : World → World
opened w = record w { c_environments = w.c_environments + 1; c_models = w.c_models + 1 }

abbrev one_opened : World → World
one_opened w = record w { c_environments = w.c_environments + 1 }

abbrev model_opened : World → World
model_opened w = record w { c_models = w.c_models + 1 }

abbrev one_shut : World → World
one_shut w = record w { c_environments = w.c_environments - 1 }

abbrev shut : World → World
shut w = record w { c_environments = w.c_environments - 1; c_models = w.c_models - 1 }

shut-opened : (w : World) → shut (opened w) ≡ w
shut-opened w = ground arith

-- While a question is asked: both are open, or it has raised and both are destroyed.
abbrev Asking : {A : Type 0} → World → Outcome A → World → Type 0
Asking w (returned a) w' = w' ≡ opened w
Asking w (raised e) w' = w' ≡ w

-- The same, where a tuple has no memory while both are open.
abbrev Shaping : {A : Type 0} → World → Outcome A → World → Type 0
Shaping w (returned a) w' = w' ≡ opened w
Shaping w (raised e) w' = (w' ≡ w) ⊎ ((e ≡ memory_error) × (w' ≡ opened w))

-- Nothing has changed, or there was no memory for a tuple, and both are still open.
abbrev pub Shaped : {A : Type 0} → World → Outcome A → World → Type 0
Shaped w r w' = (w' ≡ w) ⊎ ((r ≡ raised memory_error) × (w' ≡ opened w))

-- What is left of a question: nothing, or with MemoryError both are open.
abbrev pub Leaves : {A : Type 0} → Bool → World → Outcome A → World → Type 0
Leaves true w r w' = (r ≡ raised memory_error) × (w' ≡ opened w)
Leaves false w r w' = w' ≡ w

abbrev pub is_ranked : Option Bool → Option (ElementType × List ℤ) → Bool
is_ranked none ranked = false
is_ranked (some true) ranked = false
is_ranked (some false) none = false
is_ranked (some false) (some dims) = true

module _ {A : Type 0} (w w' : World) (open_ : w' ≡ opened w) where
  or_destroy-Asking : (o : Option A) (e : Exn) → Ends (Asking w) (or_destroy e o w')
  or_destroy-Asking none e = ends (ap shut open_ ∙ shut-opened w)
  or_destroy-Asking (some a) e = ends open_

module _ (w w' : World) (open_ : w' ≡ opened w) where
  both_Asking : (b : Bool) (e : Exn) → Ends (Asking w) (or_destroy_both b e w')
  both_Asking true e = ends open_
  both_Asking false e = ends (ap shut open_ ∙ shut-opened w)

  ranked_Asking : (api : Api) → Ends (Asking w) (ranked_type api w')
  ranked_Asking api =
      bind (or_destroy-Asking w w' open_ api.ranked (os_error eio)) (λ a v e. ends e) (λ e v p. p)

  type_Asking :
      (api : Api) (unranked : Bool)
      → Ends
          (Asking w)
          ((if unranked then or_destroy (os_error eio) api.unranked else ranked_type api) w')
  type_Asking api true = or_destroy-Asking w w' open_ api.unranked (os_error eio)
  type_Asking api false = ranked_Asking api

module _ (w w' : World) (open_ : w' ≡ opened w) where
  room_Shaping : (b : Bool) → Ends (Shaping w) (check b memory_error w')
  room_Shaping true = ends open_
  room_Shaping false = ends (inr (refl, open_))

module _ (w w' : World) (open_ : w' ≡ opened w) where
  shape_Shaping :
      (api : Api) (unranked : Bool)
      → Ends (Shaping w) ((if unranked then pure none else ranked_shape api) w')
  shape_Shaping api true = ends open_
  shape_Shaping api false =
      bind (or_destroy-Asking w w' open_ api.ranked (os_error eio))
        (λ a v p. bind (room_Shaping w v p api.room) (λ t v p. ends p) (λ e v p. p))
        (λ e v p. inl p)

one_Asking :
    (w w' : World) (b : Bool) (e : Exn)
    → w' ≡ one_opened w
    → Ends (Asking w) (or_destroy_one b e w')
one_Asking w w' true e p = ends (ap model_opened p)
one_Asking w w' false e p = ends (ap one_shut p ∙ ground arith)

abbrev pub Checked : {A : Type 0} → World → Outcome A → World → Type 0
Checked w r w' = w' ≡ w

check-Checked : (w : World) (b : Bool) (e : Exn) → Ends (Checked w) (check b e w)
check-Checked w true e = ends refl
check-Checked w false e = ends refl

module _ (api : Api) (self : ℕ) (is_output : Bool) (index : ℤ) (w : World) where
  find_tensor-Asking : Ends (Asking w) (find_tensor api self is_output index w)
  unfolding find_tensor
  find_tensor-Asking =
      bind (check-Checked w api.create_environment (os_error eio))
        (λ t v p.
          bind
            (one_Asking w (one_opened v) (api.create_model (v.model_objs self).path) (os_error eio)
              (ap one_opened p))
            (λ t v p.
              bind (both_Asking w v p api.signature (os_error eio))
                (λ t v p. both_Asking w v p (api.tensor is_output index) (os_error einval))
                (λ e v p. p))
            (λ e v p. p))
        (λ e v p. p)

  pub element_type_lem : Ends (Checked w) (tensor_element_type api self is_output index w)
  unfolding tensor_element_type
  element_type_lem =
      bind find_tensor-Asking
        (λ t v p.
          bind (or_destroy-Asking w v p api.type_id (os_error eio))
            (λ unranked v p.
              bind (type_Asking w v p api unranked) (λ t v p. ends (ap shut p ∙ shut-opened w))
                (λ e v p. p))
            (λ e v p. p))
        (λ e v p. p)

  pub shape_lem : Ends (Shaped w) (tensor_shape api self is_output index w)
  unfolding tensor_shape
  shape_lem =
      bind find_tensor-Asking
        (λ t v p.
          bind (or_destroy-Asking w v p api.type_id (os_error eio))
            (λ unranked v p.
              bind (shape_Shaping w v p api unranked)
                (λ t v p. ends (inl (ap shut p ∙ shut-opened w))) (λ e v p. left_open e v p))
            (λ e v p. inl p))
        (λ e v p. inl p)
    where
      left_open :
          (e : Exn) (v : World)
          → Shaping {A = Option (List ℤ)} w (raised e) v
          → Shaped {A = Option (List ℤ)} w (raised e) v
      left_open e v (inl p) = inl p
      left_open e v (inr (p, q)) = inr (ap raised p, q)

  -- The C API finds a ranked tensor, and there is no memory for the tuple of its dimensions.
  abbrev pub out_of_room : Bool
  out_of_room =
      api.create_environment
      && (api.create_model (w.model_objs self).path
          && (api.signature
              && (api.tensor is_output index
                  && (is_ranked api.type_id api.ranked && not api.room))))

  shape_Leaves : Ends (Leaves out_of_room w) (tensor_shape api self is_output index w)
  unfolding tensor_shape find_tensor
  shape_Leaves = elim (Bool-cases api.create_environment) [
    | inr no_environment ↦ rw no_environment (ends refl)
    | inl e1 ↦ rw e1 (elim (Bool-cases (api.create_model (w.model_objs self).path)) [
      | inr no_model ↦ rw no_model (ends (ground arith))
      | inl e2 ↦ rw e2 (elim (Bool-cases api.signature) [
        | inr no_signature ↦ rw no_signature (ends (ground arith))
        | inl e3 ↦ rw e3 (elim (Bool-cases (api.tensor is_output index)) [
          | inr no_tensor ↦ rw no_tensor (ends (ground arith))
          | inl e4 ↦ rw e4 (elim (Option-cases api.type_id) [
            | inl no_type ↦ rw no_type (ends (shut-opened w))
            | inr (true, unranked) ↦ rw unranked (ends (shut-opened w))
            | inr (false, ranked) ↦ rw ranked (elim (Option-cases api.ranked) [
              | inl no_dims ↦ rw no_dims (ends (shut-opened w))
              | inr (dims, e5) ↦ rw e5 (elim (Bool-cases api.room) [
                | inl room ↦ rw room (ends (shut-opened w))
                | inr no_room ↦ rw no_room (ends (refl, refl))
              ])
            ])
          ])
        ])
      ])
    ])
  ]

  -- A question about a tensor ends. One about its type has destroyed what it opened at the C API, however it ends,
  -- and changed nothing; so has one about its shape, but where there is no memory for the tuple of the
  -- dimensions: then it raises MemoryError, and leaves an environment and a model open.
  pub questions_balanced :
      Ends (Checked w) (tensor_element_type api self is_output index w)
      × Ends (Leaves out_of_room w) (tensor_shape api self is_output index w)
  questions_balanced = (element_type_lem, shape_Leaves)
