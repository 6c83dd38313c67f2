-- ===== src/Litert/Inv.antt =====
-- What holds of the Environment and CompiledModel objects between calls: each that is open has a node of its
-- own in its list.
use upy_android.Prelude.{
  ℕ, ◌≡◌, ◌≢◌, refl, sym, ap, ◌∙◌, true, false, Option, none, some, List, [], ◌∷◌, arith,
  ℕ_discrete,
}
use upy_android.Prelude.Words.{update}
use upy_android.Litert.{Node, World, remove_node, ref_at}
use upy_android.Litert.Running.Lists.{has_address}

-- Which object has which node.
pub record Owns (f : ℕ → Option ℕ) (ns : List Node) : Type 0 where
  pub listed : (i a : ℕ) → f i ≡ some a → has_address a ns ≡ true
  pub own : (i j a : ℕ) → f i ≡ some a → f j ≡ some a → i ≡ j

pub record Inv (w : World) : Type 0 where
  pub environments : Owns w.environment_objs w.environments
  pub models : Owns (λ i. (w.model_objs i).node) w.models

-- A node in the list can be read.
pub listed_ref :
    (a : ℕ) (ns : List Node) → has_address a ns ≡ true → (r : ℕ) × (ref_at a ns ≡ some r)
unfolding ref_at
listed_ref a [] h = absurd (ground (arith, h))
listed_ref a (n ∷ ns) h = elim (ℕ_discrete n.address a) [
  | yes e ↦ (n.global_ref, ground arith)
  | no e ↦ let (r, g) = listed_ref a ns (ground (arith, h)) in (r, ground (arith, g))
]

pub remove-other :
    (a b : ℕ) (ns : List Node) → a ≢ b → has_address b (remove_node a ns) ≡ has_address b ns
unfolding remove_node
remove-other a b [] h = refl
remove-other a b (n ∷ ns) h = ground (arith, remove-other a b ns h)

-- A new node for a new object.
pub Owns-add :
    (f : ℕ → Option ℕ) (ns : List Node) (n : Node) (self : ℕ)
    → Owns f ns
    → has_address n.address ns ≡ false
    → Owns (update f self (some n.address)) (n ∷ ns)
Owns-add f ns n self v fresh = record {
  listed = λ i a p. ground (arith, p, v.listed i a);
  own = λ i j a p q.
      ground (arith, p, q, v.own i j a, v.listed i n.address, v.listed j n.address, fresh);
}

-- The node of an object that is closed.
pub Owns-remove :
    (f : ℕ → Option ℕ) (ns : List Node) (a self : ℕ)
    → Owns f ns
    → f self ≡ some a
    → Owns (update f self none) (remove_node a ns)
Owns-remove f ns a self v e = record {
  listed = λ i b p. remove-other a b ns (other i b p) ∙ v.listed i b (before i b p);
  own = λ i j b p q. v.own i j b (before i b p) (before j b q);
}
  where
    before : (i b : ℕ) → update f self none i ≡ some b → f i ≡ some b
    before i b p = ground (arith, p)

    other : (i b : ℕ) → update f self none i ≡ some b → a ≢ b
    other i b p eq =
        let at_i : f i ≡ some a = before i b p ∙ ap some (sym eq) in
        let same = v.own self i a e at_i in ground (arith, p, same)

-- An equal assignment of nodes.
pub Owns-same :
    (f g : ℕ → Option ℕ) (ns : List Node) → ((i : ℕ) → f i ≡ g i) → Owns f ns → Owns g ns
Owns-same f g ns e v = record {
  listed = λ i a p. v.listed i a (e i ∙ p);
  own = λ i j a p q. v.own i j a (e i ∙ p) (e j ∙ q);
}
