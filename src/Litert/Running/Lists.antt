-- ===== src/Litert/Running/Lists.antt =====
-- The list of buffers while a run adds and removes its own.
use upy_android.Prelude.{
  ℕ, ◌≡◌, refl, ◌∙◌, Bool, false, some, List, [], ◌∷◌, ◌++◌, ◌==◌, ◌||◌, arith,
}
use upy_android.Litert.{Node, remove_node, ref_at}

-- Adding nodes one by one.
abbrev pub add_all : List Node → List Node → List Node
add_all [] bs = bs
add_all (n ∷ ns) bs = add_all ns (n ∷ bs)

-- Their references, the latest first.
abbrev pub push : List Node → List ℕ → List ℕ
push [] rs = rs
push (n ∷ ns) rs = push ns (n.global_ref ∷ rs)

abbrev pub has_address : ℕ → List Node → Bool
has_address a [] = false
has_address a (n ∷ ns) = n.address == a || has_address a ns

-- No two nodes have one address.
abbrev pub Apart : List Node → Type 0
Apart [] = Unit {0}
Apart (n ∷ ns) = (has_address n.address ns ≡ false) × Apart ns

-- The nodes can be read.
abbrev pub Live : List Node → List Node → Type 0
Live [] bs = Unit {0}
Live (n ∷ ns) bs = (ref_at n.address bs ≡ some n.global_ref) × Live ns bs

ref_at-add_all :
    (a : ℕ) (ns bs : List Node) → has_address a ns ≡ false → ref_at a (add_all ns bs) ≡ ref_at a bs
unfolding ref_at
ref_at-add_all a [] bs h = refl
ref_at-add_all a (n ∷ ns) bs h =
    ref_at-add_all a ns (n ∷ bs) (ground (arith, h)) ∙ ground (arith, h)

-- The first of the nodes that were added, while the others are there.
pub ref_at_first :
    (n : Node) (ns bs : List Node)
    → has_address n.address ns ≡ false
    → ref_at n.address (add_all ns (n ∷ bs)) ≡ some n.global_ref
unfolding ref_at
ref_at_first n ns bs h = ref_at-add_all n.address ns (n ∷ bs) h ∙ ground arith

remove-add_all :
    (a : ℕ) (ns bs cs : List Node)
    → has_address a ns ≡ false
    → remove_node a bs ≡ cs
    → remove_node a (add_all ns bs) ≡ add_all ns cs
unfolding remove_node
remove-add_all a [] bs cs h e = e
remove-add_all a (n ∷ ns) bs cs h e =
    remove-add_all a ns (n ∷ bs) (n ∷ cs) (ground (arith, h)) (ground (arith, h, e))

pub remove_first :
    (n : Node) (ns bs : List Node)
    → has_address n.address ns ≡ false
    → remove_node n.address (add_all ns (n ∷ bs)) ≡ add_all ns bs
unfolding remove_node
remove_first n ns bs h = remove-add_all n.address ns (n ∷ bs) bs h (ground arith)

pub Apart-Live : (ns bs : List Node) → Apart ns → Live ns (add_all ns bs)
Apart-Live [] bs h = tt
Apart-Live (n ∷ ns) bs (h, hs) = (ref_at_first n ns bs h, Apart-Live ns (n ∷ bs) hs)

pub Live-left : (ns ms bs : List Node) → Live (ns ++ ms) bs → Live ns bs
Live-left [] ms bs h = tt
Live-left (n ∷ ns) ms bs (h, hs) = (h, Live-left ns ms bs hs)

pub Live-right : (ns ms bs : List Node) → Live (ns ++ ms) bs → Live ms bs
Live-right [] ms bs h = h
Live-right (n ∷ ns) ms bs (h, hs) = Live-right ns ms bs hs

absent_left :
    (a : ℕ) (ns ms : List Node) → has_address a (ns ++ ms) ≡ false → has_address a ns ≡ false
absent_left a [] ms h = refl
absent_left a (n ∷ ns) ms h = ground (arith, h, absent_left a ns ms)

pub Apart-left : (ns ms : List Node) → Apart (ns ++ ms) → Apart ns
Apart-left [] ms h = tt
Apart-left (n ∷ ns) ms (h, hs) = (absent_left n.address ns ms h, Apart-left ns ms hs)

pub Apart-right : (ns ms : List Node) → Apart (ns ++ ms) → Apart ms
Apart-right [] ms h = h
Apart-right (n ∷ ns) ms (h, hs) = Apart-right ns ms hs

pub add_all-append : (ns ms bs : List Node) → add_all (ns ++ ms) bs ≡ add_all ms (add_all ns bs)
add_all-append [] ms bs = refl
add_all-append (n ∷ ns) ms bs = add_all-append ns ms (n ∷ bs)

pub push-append : (ns ms : List Node) (rs : List ℕ) → push (ns ++ ms) rs ≡ push ms (push ns rs)
push-append [] ms rs = refl
push-append (n ∷ ns) ms rs = push-append ns ms (n.global_ref ∷ rs)
