-- ===== src/Queue/Moves.antt =====
-- What a component that moves items between queues uses of them: one call, on a queue that it knows
-- the contents of.
use upy_android.Prelude.{
  ℕ, ◌-◌, ◌<◌, ◌≡◌, ◌≢◌, refl, sym, ap, ◌∙◌, Bool, true, false, Option, some, List, [], ◌∷◌, ◌++◌,
  arith, length, ◌==◌,
}
use upy_android.Prelude.Words.{null, size_mod}
use mathlib.Core.Path.{subst}
use upy_android.Queue.{Queue, is_empty, push, pop, push_live, pop_live, size, flush, flush_live}
use upy_android.Queue.Fifo
use upy_android.Queue.Inv.{
  IsValid, used, size-used, push_live-IsValid, pop_live-IsValid, flush_live-IsValid,
}
use upy_android.Queue.Refine.{contents, length-window, push_refines, pop_refines, peek_refines}

-- The queue behind a pointer: valid, of this capacity, and holding these items.
pub record Holds (p : Option Queue) (capacity : ℕ) (xs : List ℕ) : Type 0 where
  pub queue : Queue
  pub there : p ≡ some queue
  pub valid : IsValid queue
  pub items : contents queue ≡ xs
  pub bound : queue.capacity ≡ capacity

pub length-contents : (q : Queue) → length (contents q) ≡ used q
length-contents q = length-window q.items q.capacity q.head (used q)

capacity-push_live : (q : Queue) (x : ℕ) → (push_live q x).1.capacity ≡ q.capacity
unfolding push_live
capacity-push_live q x = ground arith

capacity-pop_live : (q : Queue) (peek : Bool) → (pop_live q peek).1.capacity ≡ q.capacity
unfolding pop_live
capacity-pop_live q peek = ground arith

push_live-room :
    (q : Queue) (x : ℕ)
    → IsValid q
    → length (contents q) < q.capacity
    → contents (push_live q x).1 ≡ contents q ++ x ∷ []
unfolding Fifo.push
push_live-room q x v room = ground (arith, push_refines x v)

pop_live_nil : (q : Queue) (peek : Bool) → IsValid q → contents q ≡ [] → pop_live q peek ≡ (null, q)
unfolding pop_live
pop_live_nil q peek v e = ground (arith, v, length-contents q, ap length e)

push-live :
    (q : Queue) (x : ℕ) → x ≢ null → push (some q) x ≡ ((push_live q x).0, some (push_live q x).1)
unfolding push
push-live q x ne = ground arith

-- A push with room puts the item last.
pub push-Holds :
    {p : Option Queue} {capacity : ℕ} {xs : List ℕ} (x : ℕ)
    → Holds p capacity xs
    → x ≢ null
    → length xs < capacity
    → Holds (push p x).1 capacity (xs ++ x ∷ [])
push-Holds x h ne room = record {
  queue = (push_live h.queue x).1;
  there =
      ap (λ r. (push r x).1) h.there
      ∙ ap (λ (r : Bool × Option Queue). r.1) (push-live h.queue x ne);
  valid = push_live-IsValid x h.valid;
  items =
      push_live-room h.queue x h.valid (omega (arith, ap length h.items, h.bound))
      ∙ ap (λ ys. ys ++ x ∷ []) h.items;
  bound = capacity-push_live h.queue x ∙ h.bound;
}

-- A pop takes the first item.
pub pop-Holds :
    {p : Option Queue} {capacity : ℕ} {xs : List ℕ} (x : ℕ)
    → Holds p capacity (x ∷ xs)
    → ((pop p false).0 ≡ x) × Holds (pop p false).1 capacity xs
unfolding pop Fifo.pop
pop-Holds x h =
    let taken = pop_refines h.valid ∙ ap Fifo.pop h.items in
    (
      ap (λ r. (pop r false).0) h.there ∙ ap (λ (r : ℕ × List ℕ). r.0) taken,
      record {
        queue = (pop_live h.queue false).1;
        there = ap (λ r. (pop r false).1) h.there;
        valid = pop_live-IsValid false h.valid;
        items = ap (λ (r : ℕ × List ℕ). r.1) taken;
        bound = capacity-pop_live h.queue false ∙ h.bound;
      },
    )

-- A pop of nothing hands out NULL.
pub pop-Holds_nil :
    {p : Option Queue} {capacity : ℕ} (peek : Bool)
    → Holds p capacity []
    → ((pop p peek).0 ≡ null) × ((pop p peek).1 ≡ p)
unfolding pop
pop-Holds_nil peek h =
    let e = pop_live_nil h.queue peek h.valid h.items in
    (
      ap (λ r. (pop r peek).0) h.there ∙ ap (λ (r : ℕ × Queue). r.0) e,
      ap (λ r. (pop r peek).1) h.there ∙ ap (λ (r : ℕ × Queue). some r.1) e ∙ sym h.there,
    )

-- A peek shows the first item and takes nothing.
pub peek-Holds :
    {p : Option Queue} {capacity : ℕ} {xs : List ℕ} (x : ℕ)
    → Holds p capacity (x ∷ xs)
    → ((pop p true).0 ≡ x) × ((pop p true).1 ≡ p)
unfolding pop Fifo.pop
peek-Holds x h =
    let r = peek_refines h.queue h.valid in
    (
      ap (λ r. (pop r true).0) h.there ∙ r.0 ∙ ap (λ (r : ℕ × List ℕ). r.0) (ap Fifo.pop h.items),
      ap (λ r. (pop r true).1) h.there ∙ ap some r.1 ∙ sym h.there,
    )

pub size-Holds :
    {p : Option Queue} {capacity : ℕ} {xs : List ℕ} → Holds p capacity xs → size p ≡ length xs
size-Holds h =
    ap size h.there ∙ size-used h.valid ∙ sym (length-contents h.queue) ∙ ap length h.items

-- A flushed queue holds nothing.
pub flush_live-Holds :
    (q : Queue) → q.capacity < size_mod - 1 → Holds (some (flush_live q)) q.capacity []
unfolding flush_live
flush_live-Holds q small = record {
  queue = flush_live q;
  there = refl;
  valid = flush_live-IsValid q small;
  items = refl;
  bound = refl;
}

pub flush-Holds :
    {p : Option Queue} {capacity : ℕ} {xs : List ℕ}
    → Holds p capacity xs
    → Holds (flush p) capacity []
unfolding flush
flush-Holds {p} {capacity} h =
    subst (λ r. Holds (flush r) capacity []) (sym h.there)
      (subst (λ c. Holds (some (flush_live h.queue)) c []) h.bound
        (flush_live-Holds h.queue h.valid.small))

is_empty-used : {q : Queue} → IsValid q → is_empty (some q) ≡ (used q == 0)
unfolding is_empty
is_empty-used v = ground (arith, v)

pub is_empty-Holds :
    {p : Option Queue} {capacity : ℕ} {xs : List ℕ}
    → Holds p capacity xs
    → is_empty p ≡ (length xs == 0)
is_empty-Holds h =
    ap is_empty h.there
    ∙ is_empty-used h.valid
    ∙ ap (λ n. n == 0) (sym (length-contents h.queue) ∙ ap length h.items)
