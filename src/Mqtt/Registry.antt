-- ===== src/Mqtt/Registry.antt =====
-- The list of nodes: what adding and removing a node does to the addresses and the references in it.
use upy_android.Prelude.{
  ℕ, ◌≡◌, ◌≢◌, refl, ap, Bool, true, false, some, List, [], ◌∷◌, ◌==◌, ◌||◌, if◌then◌else◌, arith,
  ℕ_discrete, Bool-cases, inl, inr,
}
use upy_android.Mqtt.{Node, registry_remove, global_ref}

unfoldable pub has_address : ℕ → List Node → Bool
has_address a [] = false
has_address a (n ∷ ns) = n.address == a || has_address a ns

unfoldable pub has_ref : ℕ → List ℕ → Bool
has_ref r [] = false
has_ref r (s ∷ rs) = s == r || has_ref r rs

unfoldable pub remove_ref : ℕ → List ℕ → List ℕ
remove_ref r [] = []
remove_ref r (s ∷ rs) = let rest = remove_ref r rs in if s == r then rs else s ∷ rest

unfoldable pub refs : List Node → List ℕ
refs [] = []
refs (n ∷ ns) = n.global_ref ∷ refs ns

-- No two nodes have the same address or the same reference.
pub data Distinct : List Node → Type 0 where
  no_nodes : Distinct []
  one_more :
      {n : Node} {ns : List Node}
      → has_address n.address ns ≡ false
      → has_ref n.global_ref (refs ns) ≡ false
      → Distinct ns
      → Distinct (n ∷ ns)

-- A node in the list can be read, and its reference is in the list too.
pub global_ref_lem :
    (a : ℕ) (ns : List Node)
    → has_address a ns ≡ true
    → (r : ℕ) × ((global_ref a ns ≡ some r) × (has_ref r (refs ns) ≡ true))
unfolding has_address global_ref refs has_ref
global_ref_lem a [] h = ground (arith, h)
global_ref_lem a (n ∷ ns) h = elim (ℕ_discrete n.address a) [
  | yes e ↦ (n.global_ref, (ground arith, ground arith))
  | no e ↦
      let (r, (p, q)) = global_ref_lem a ns (ground (arith, h)) in
      (r, (ground (arith, p), ground (arith, q)))
]

pub remove-other :
    (a b : ℕ) (ns : List Node) → a ≢ b → has_address b (registry_remove a ns) ≡ has_address b ns
unfolding has_address registry_remove
remove-other a b [] h = refl
remove-other a b (n ∷ ns) h = ground (arith, remove-other a b ns h)

pub remove-absent :
    (a b : ℕ) (ns : List Node)
    → has_address b ns ≡ false
    → has_address b (registry_remove a ns) ≡ false
unfolding has_address registry_remove
remove-absent a b [] h = refl
remove-absent a b (n ∷ ns) h = ground (arith, h, remove-absent a b ns)

pub remove-absent_ref :
    (a r : ℕ) (ns : List Node)
    → has_ref r (refs ns) ≡ false
    → has_ref r (refs (registry_remove a ns)) ≡ false
unfolding has_ref refs registry_remove
remove-absent_ref a r [] h = refl
remove-absent_ref a r (n ∷ ns) h = ground (arith, h, remove-absent_ref a r ns)

has_ref-global_ref :
    (a r : ℕ) (ns : List Node) → global_ref a ns ≡ some r → has_ref r (refs ns) ≡ true
unfolding global_ref refs has_ref
has_ref-global_ref a r [] e = ground (arith, e)
has_ref-global_ref a r (n ∷ ns) e = ground (arith, e, has_ref-global_ref a r ns)

-- Removing a node removes its reference.
pub remove-refs :
    (a r : ℕ) (ns : List Node)
    → Distinct ns
    → global_ref a ns ≡ some r
    → refs (registry_remove a ns) ≡ remove_ref r (refs ns)
unfolding refs registry_remove remove_ref global_ref has_ref
remove-refs a r [] d e = ground (arith, e)
remove-refs a r (n ∷ ns) (one_more p q d) e = elim (ℕ_discrete n.address a) [
  | yes y ↦ ground (arith, e)
  | no y ↦
      let here : global_ref a ns ≡ some r = ground (arith, e) in
      let rest = remove-refs a r ns d here in
      let held = has_ref-global_ref a r ns here in
      let same_ref : n.global_ref ≢ r =
        λ eq. (let q' : has_ref r (refs ns) ≡ false = rw (← eq) q in ground (arith, q', held)) in
      let g : (n.address == a) ≡ false = ground arith in
      let f : (n.global_ref == r) ≡ false = ground (arith, same_ref) in
      rw g (rw f (ap (λ rs. n.global_ref ∷ rs) rest))
]

pub remove-Distinct : (a : ℕ) (ns : List Node) → Distinct ns → Distinct (registry_remove a ns)
unfolding registry_remove
remove-Distinct a [] d = no_nodes
remove-Distinct a (n ∷ ns) (one_more p q d) = elim (Bool-cases (n.address == a)) [
  | inl e ↦ rw e d
  | inr e ↦ rw e (
      one_more (remove-absent a n.address ns p) (remove-absent_ref a n.global_ref ns q)
        (remove-Distinct a ns d))
]
