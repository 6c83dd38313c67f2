-- ===== src/Litert/Tensors/Counting.antt =====
-- The number of elements of a tensor, and what a check of an input that returns has found.
use upy_android.Prelude.{
  ℕ, zero, suc, ◌*◌, ◌/◌, ◌%◌, ◌^◌, ◌<◌, ◌≤◌, ltb, ◌≡◌, refl, sym, ap, ◌∙◌, Bool, true, false,
  Option, none, some, List, [], ◌∷◌, ◌==◌, arith, if◌then◌else◌,
}
use native.Mathlib.Nat.{mul_assoc}
use upy_android.Prelude.Ints.{ℤ, pos, negsuc}
use upy_android.Prelude.Raise.{Exn, os_error, eio, value_error, type_error, memory_error, returned}
use upy_android.Prelude.Run.{ended, pure, check, returned_from, and_then, ◌>>◌}
use upy_android.Litert.{World, Array, array}
use upy_android.Litert.Tensors.{
  ElementType, Api, find_tensor, or_destroy, tensor_shape, tensor_element_count, count_from,
  count_of, same_count, check_input_size, ranked_shape, destroy,
}

-- The number of elements of a tensor of these dimensions, all positive.
abbrev pub elements : List ℤ → ℕ
elements [] = 1
elements (pos n ∷ dims) = n * elements dims
elements (negsuc n ∷ dims) = 0

abbrev pub Positive : List ℤ → Type 0
Positive [] = Unit {0}
Positive (pos n ∷ dims) = (0 < n) × Positive dims
Positive (negsuc n ∷ dims) = ⊥

not_zero : (n : ℕ) → (suc n == 0) ≡ false
not_zero n = ground arith

elements-Positive : (dims : List ℤ) → Positive dims → 0 < elements dims
elements-Positive [] h = omega arith
elements-Positive (pos n ∷ dims) (h, hs) =
    let rest = elements-Positive dims hs in grind (arith, rest)
elements-Positive (negsuc n ∷ dims) h = absurd h

-- A product that fits at the end fits at the start.
factor_fits : (c n e : ℕ) → 0 < e → c * n * e < 2 ^ 63 → c * n % 2 ^ 64 ≡ c * n
factor_fits c n e p h = let q : c * n ≤ c * n * e = grind arith in ground (arith, q)

count_from-elements :
    (c : ℕ) (dims : List ℤ)
    → Positive dims
    → c * elements dims < 2 ^ 63
    → count_from c dims ≡ some (c * elements dims)
unfolding count_from
count_from-elements c [] h fits = ground arith
count_from-elements c (pos zero ∷ dims) (h, hs) fits = absurd (omega arith)
count_from-elements c (pos (suc n) ∷ dims) (h, hs) fits =
    let assoc = mul_assoc c (suc n) (elements dims) in
    let small : c * suc n * elements dims < 2 ^ 63 = omega (arith, assoc, fits) in
    rw (not_zero n) (
      rw (factor_fits c (suc n) (elements dims) (elements-Positive dims hs) small)
        (count_from-elements (c * suc n) dims hs small ∙ ap some assoc))
count_from-elements c (negsuc n ∷ dims) h fits = absurd h

pub checked :
    (w : World) (b : Bool) (x : Exn) (t : Unit {0}) (w' : World)
    → check b x w ≡ ended (returned t) w'
    → b ≡ true
checked w true x t w' e = refl
checked w false x t w' e = absurd (ground (arith, e))

or_destroy_returned :
    {A : Type 0} (o : Option A) (x : Exn) (w : World) (a : A) (w' : World)
    → or_destroy x o w ≡ ended (returned a) w'
    → o ≡ some a
or_destroy_returned none x w a w' e = absurd (ground (arith, e))
or_destroy_returned (some b) x w a w' e = ground (arith, e)

module _ (api : Api) (t : ElementType) (dims : List ℤ) (typed : api.type_id ≡ some false)
    (ranked : api.ranked ≡ some (t, dims)) where
  ranked_returned :
      (w : World) (shape : Option (List ℤ)) (w' : World)
      → ranked_shape api w ≡ ended (returned shape) w'
      → shape ≡ some dims
  ranked_returned w shape w' e =
      let (p, (v, (e1, e2))) = returned_from (or_destroy (os_error eio) api.ranked w) _ e in
      let same = sym (or_destroy_returned api.ranked (os_error eio) w p v e1) ∙ ranked in
      let (u, (v', (e3, e4))) = returned_from (check api.room memory_error v) _ e2 in
      ground (arith, e4, same)

  kept_shape :
      (w : World) (unranked : Bool) (shape : Option (List ℤ)) (w' : World)
      → unranked ≡ false
      → and_then
          ((if unranked then pure none else ranked_shape api) w)
          (λ shape. destroy >> pure shape)
        ≡ ended (returned shape) w'
      → shape ≡ some dims
  kept_shape w true shape w' is_ranked e = absurd (ground (arith, is_ranked))
  kept_shape w false shape w' is_ranked e =
      let (o, (v, (e1, e2))) = returned_from (ranked_shape api w) _ e in
      ground (arith, e2, ranked_returned w o v e1)

  shape_returned :
      (self : ℕ) (is_output : Bool) (index : ℤ) (w : World) (shape : Option (List ℤ)) (w' : World)
      → tensor_shape api self is_output index w ≡ ended (returned shape) w'
      → shape ≡ some dims
  unfolding tensor_shape
  shape_returned self is_output index w shape w' e =
      let (u, (v, (e1, e2))) = returned_from (find_tensor api self is_output index w) _ e in
      let (unranked, (v', (e3, e4))) =
        returned_from (or_destroy (os_error eio) api.type_id v) _ e2 in
      let is_ranked =
        sym (or_destroy_returned api.type_id (os_error eio) v unranked v' e3) ∙ typed in
      kept_shape v' unranked shape w' (ground (arith, is_ranked)) e4

  module _ (positive : Positive dims) (fits : elements dims < 2 ^ 63) where
    same_count_returned :
        (n : ℕ) (want : Option ℕ) (w : World) (u : Unit {0}) (w' : World)
        → want ≡ some (elements dims)
        → same_count n want w ≡ ended (returned u) w'
        → n ≡ elements dims
    same_count_returned n none w u w' h e = absurd (ground (arith, h))
    same_count_returned n (some want) w u w' h e =
        let asked : ltb want (2 ^ 63) ≡ true = ground (arith, h, fits) in
        let hit = checked w (n == want) value_error u w' (ground (arith, e, asked)) in
        ground (arith, h, hit)

    -- An input whose check returns has as many items as the tensor has elements.
    pub input_size_lem :
        (item_size : ℕ → ℕ) (self : ℕ) (index : ℤ) (a : Array) (w : World) (u : Unit {0})
        (w' : World)
        → check_input_size item_size api self index (array a) w ≡ ended (returned u) w'
        → a.len / item_size a.typecode ≡ elements dims
    unfolding check_input_size tensor_element_count
    input_size_lem item_size self index a w u w' e =
        let (u1, (v, (e1, e2))) = returned_from (check a.readable type_error w) _ e in
        let (want, (v1, (e3, e4))) =
          returned_from (tensor_element_count api self false index v) _ e2 in
        let (shape, (v2, (e5, e6))) = returned_from (tensor_shape api self false index v) _ e3 in
        let is_dims = shape_returned self false index v shape v2 e5 in
        let counted =
          ap count_of is_dims ∙ count_from-elements 1 dims positive (omega (arith, fits)) in
        same_count_returned (a.len / item_size a.typecode) want v1 u w'
          (ground (arith, e6, counted)) e4
