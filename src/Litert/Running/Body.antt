-- ===== src/Litert/Running/Body.antt =====
-- Every step of a run between the creation of its buffers and their closing leaves the lists alone.
use upy_android.Prelude.{
  ltb, ◌^◌, Bool-cases, inl, inr, ℕ, ◌+◌, ◌/◌, ◌≡◌, refl, Bool, true, false, Option, none, some,
  List, [], ◌∷◌, ◌==◌, length,
}
use upy_android.Prelude.Ints.{pos}
use upy_android.Prelude.Raise.{
  os_error, einval, eio, value_error, type_error, memory_error, Outcome,
}
use upy_android.Prelude.Run.{Ends, ends, bind, weaken}
use upy_android.Litert.{
  Node, buffer, used, written, ran, World, ref_at, Obj, array, environment_obj, options_obj, str,
  other,
}
use upy_android.Litert.Tensors.{Api, tensor_element_count, same_count, check_input_size}
use upy_android.Litert.Tensors.Balance.{shape_lem, element_type_lem}
use upy_android.Litert.Running.{
  Answers, write_array_to_buffer, get_array, items_of, read_buffer_as_array, typecode_of,
  write_inputs, global_refs, read_outputs, read_tuple, result, run_guarded,
}
use upy_android.Litert.Running.Lists.{Live}
use upy_android.Litert.Running.Keeping.{
  At, or_raise-Still, check-Still, buffer_Still, model_Still, same_Still, Shaped-Still, event_Still,
}

module _ (w : World) (bs : List Node) (made gone : List ℕ) where
  abbrev Same : {A : Type 0} → Outcome A → World → Type 0
  Same r w' = At w bs made gone w'

  same_count_Still :
      (w' : World) (n : ℕ) (want : Option ℕ)
      → At w bs made gone w'
      → Ends Same (same_count n want w')
  same_count_Still w' n none h = ends h
  same_count_Still w' n (some want) h = elim (Bool-cases (ltb want (2 ^ 63))) [
    | inl asked ↦ rw asked (check-Still w bs made gone w' (n == want) value_error h)
    | inr negative ↦ rw negative (ends h)
  ]

  element_count_Still :
      (api : Api) (self i : ℕ) (w' : World)
      → At w bs made gone w'
      → Ends Same (tensor_element_count api self false (pos i) w')
  unfolding tensor_element_count
  element_count_Still api self i w' h =
      bind
        (weaken (shape_lem api self false (pos i) w')
          (λ r v p. Shaped-Still w bs made gone w' r v h p))
        (λ shape v p. ends p) (λ e v p. p)

  check_input_Still :
      (item_size : ℕ → ℕ) (api : Api) (self i : ℕ) (arr : Obj) (w' : World)
      → At w bs made gone w'
      → Ends Same (check_input_size item_size api self (pos i) arr w')
  unfolding check_input_size
  check_input_Still item_size api self i (array a) w' h =
      bind (check-Still w bs made gone w' a.readable type_error h)
        (λ t v p.
          bind (element_count_Still api self i v p)
            (λ want v p. same_count_Still v (a.len / item_size a.typecode) want p) (λ e v p. p))
        (λ e v p. p)
  check_input_Still item_size api self i (environment_obj a) w' h = ends h
  check_input_Still item_size api self i (options_obj a b) w' h = ends h
  check_input_Still item_size api self i (str cs) w' h = ends h
  check_input_Still item_size api self i (other a) w' h = ends h

  write_array_Still :
      (n : Node) (arr : Obj) (ok : Bool) (w' : World)
      → ref_at n.address bs ≡ some n.global_ref
      → At w bs made gone w'
      → Ends Same (write_array_to_buffer n.address arr ok w')
  unfolding write_array_to_buffer
  write_array_Still n arr ok w' live h =
      bind (or_raise-Still w bs made gone w' (get_array arr) (os_error einval) h)
        (λ a v p.
          bind (check-Still w bs made gone v a.readable type_error p)
            (λ t v p.
              bind (or_raise-Still w bs made gone v (items_of a.typecode a.len) (os_error einval) p)
                (λ count v p.
                  bind (buffer_Still w bs made gone v n.address n.global_ref live p)
                    (λ ref v p. check-Still w bs made gone _ ok (os_error eio) (
                      event_Still w bs made gone v (written ref a.typecode count)
                        (λ rs. (refl, refl)) p))
                    (λ e v p. p))
                (λ e v p. p))
            (λ e v p. p))
        (λ e v p. p)

  read_buffer_Still :
      (answers : Answers) (self i : ℕ) (n : Node) (w' : World)
      → ref_at n.address bs ≡ some n.global_ref
      → At w bs made gone w'
      → Ends Same (read_buffer_as_array answers self n.address i w')
  unfolding read_buffer_as_array
  read_buffer_Still answers self i n w' live h =
      bind
        (weaken (element_type_lem (answers.inspect true i) self true (pos i) w')
          (λ r v p. same_Still w bs made gone p h))
        (λ t v p.
          bind (or_raise-Still w bs made gone v (typecode_of t) (os_error einval) p)
            (λ typecode v p.
              bind (buffer_Still w bs made gone v n.address n.global_ref live p)
                (λ ref v p.
                  bind
                    (or_raise-Still w bs made gone _ (answers.read i) (os_error eio)
                      (event_Still w bs made gone v (used buffer ref) (λ rs. (refl, refl)) p))
                    (λ items v p.
                      bind (check-Still w bs made gone v (answers.fits i) memory_error p)
                        (λ t v p. ends p) (λ e v p. p))
                    (λ e v p. p))
                (λ e v p. p))
            (λ e v p. p))
        (λ e v p. p)

  refs_Still :
      (ns : List Node) (w' : World)
      → Live ns bs
      → At w bs made gone w'
      → Ends Same (global_refs ns w')
  unfolding global_refs
  refs_Still [] w' live h = ends h
  refs_Still (n ∷ ns) w' (live, rest) h =
      bind (buffer_Still w bs made gone w' n.address n.global_ref live h)
        (λ ref v p. bind (refs_Still ns v rest p) (λ refs v p. ends p) (λ e v p. p)) (λ e v p. p)

  module _ (item_size : ℕ → ℕ) (answers : Answers) (self : ℕ) where
    write_inputs_Still :
        (i : ℕ) (ns : List Node) (args : List Obj) (w' : World)
        → Live ns bs
        → At w bs made gone w'
        → Ends Same (write_inputs item_size answers self i ns args w')
    unfolding write_inputs
    write_inputs_Still i [] args w' live h = ends h
    write_inputs_Still i (n ∷ ns) [] w' live h = ends h
    write_inputs_Still i (n ∷ ns) (arr ∷ args) w' (live, rest) h =
        bind (check_input_Still item_size (answers.inspect false i) self i arr w' h)
          (λ t v p.
            bind (write_array_Still n arr (answers.write i) v live p)
              (λ t v p. write_inputs_Still (i + 1) ns args v rest p) (λ e v p. p))
          (λ e v p. p)

    read_outputs_Still :
        (i : ℕ) (ns : List Node) (w' : World)
        → Live ns bs
        → At w bs made gone w'
        → Ends Same (read_outputs item_size answers self i ns w')
    unfolding read_outputs
    read_outputs_Still i [] w' live h = ends h
    read_outputs_Still i (n ∷ ns) w' (live, rest) h =
        bind (read_buffer_Still answers self i n w' live h)
          (λ o v p. bind (read_outputs_Still (i + 1) ns v rest p) (λ os v p. ends p) (λ e v p. p))
          (λ e v p. p)

    read_tuple_Still :
        (ns : List Node) (w' : World)
        → Live ns bs
        → At w bs made gone w'
        → Ends Same (read_tuple item_size answers self ns w')
    unfolding read_tuple
    read_tuple_Still ns w' live h =
        bind (check-Still w bs made gone w' answers.items_fit memory_error h)
          (λ t v p.
            bind (read_outputs_Still 0 ns v live p)
              (λ os v p.
                bind (check-Still w bs made gone v answers.tuple_fits memory_error p)
                  (λ t v p. ends p) (λ e v p. p))
              (λ e v p. p))
          (λ e v p. p)

    result_Still :
        (ns : List Node) (w' : World)
        → Live ns bs
        → At w bs made gone w'
        → Ends Same (result item_size answers self ns w')
    result_Still [] w' live h = read_tuple_Still [] w' live h
    result_Still (n ∷ []) w' (live, rest) h =
        bind (read_buffer_Still answers self 0 n w' live h) (λ o v p. ends p) (λ e v p. p)
    result_Still (n ∷ k ∷ ns) w' live h = read_tuple_Still (n ∷ k ∷ ns) w' live h

    pub run_guarded_Still :
        (node r : ℕ) (ins outs : List Node) (args : List Obj) (w' : World)
        → ref_at node w.models ≡ some r
        → Live ins bs
        → Live outs bs
        → At w bs made gone w'
        → Ends Same (run_guarded item_size answers self node ins outs args w')
    unfolding run_guarded
    run_guarded_Still node r ins outs args w' open_ in_live out_live h =
        bind (check-Still w bs made gone w' (length ins == length args) value_error h)
          (λ t v p.
            bind (write_inputs_Still 0 ins args v in_live p)
              (λ t v p.
                bind (refs_Still ins v in_live p)
                  (λ is v p.
                    bind (refs_Still outs v out_live p)
                      (λ os v p.
                        bind (model_Still w bs made gone v node r open_ p)
                          (λ ref v p.
                            bind
                              (check-Still w bs made gone _ answers.runs (os_error eio) (
                                event_Still w bs made gone v (ran ref is os) (λ rs. (refl, refl))
                                  p))
                              (λ t v p. result_Still outs v out_live p) (λ e v p. p))
                          (λ e v p. p))
                      (λ e v p. p))
                  (λ e v p. p))
              (λ e v p. p))
          (λ e v p. p)
