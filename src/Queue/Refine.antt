-- ===== src/Queue/Refine.antt =====
-- A valid queue behaves as the bounded list of the items between head and tail.
use upy_android.Prelude.{
  ℕ, zero, suc, ◌+◌, ◌-◌, ◌≤◌, ◌<◌, ◌≡◌, refl, ◌≢◌, ap, ◌∙◌, true, false, List, [], ◌∷◌, ◌++◌,
  arith, ltb, leb, if◌then◌else◌, length,
}
use mathlib.Core.Path.{ap₂}
use upy_android.Prelude.Words.{update, update_self, update_ne}
use upy_android.Queue.{Queue, push_live, pop_live}
use upy_android.Queue.Fifo
use upy_android.Queue.Inv.{IsValid, used, next_lem, used-le-capacity}

-- The index after `h`, and the one `n` steps on.
abbrev pub step : ℕ → ℕ → ℕ
step cap h = if ltb h cap then h + 1 else 0

abbrev pub ahead : ℕ → ℕ → ℕ → ℕ
ahead cap h n = if leb (h + n) cap then h + n else h + n - (cap + 1)

-- The `n` items from index `h` on.
abbrev pub window : (ℕ → ℕ) → ℕ → ℕ → ℕ → List ℕ
window items cap h zero = []
window items cap h (suc n) = items h ∷ window items cap (step cap h) n

abbrev pub contents : Queue → List ℕ
contents q = window q.items q.capacity q.head (used q)

pub length-window : (items : ℕ → ℕ) (cap h n : ℕ) → length (window items cap h n) ≡ n
length-window items cap h zero = refl
length-window items cap h (suc n) = ap suc (length-window items cap (step cap h) n)

pub window_of_ne_zero :
    (items : ℕ → ℕ) (cap h n : ℕ)
    → n ≢ 0
    → window items cap h n ≡ items h ∷ window items cap (step cap h) (n - 1)
window_of_ne_zero items cap h zero p = absurd (p refl)
window_of_ne_zero items cap h (suc n) p = ap (λ k. window items cap h (suc k)) (omega arith)

ahead-step : (cap h n : ℕ) → h ≤ cap → n < cap → ahead cap (step cap h) n ≡ ahead cap h (suc n)
ahead-step cap h n p q = ground arith

pub window-append :
    (items : ℕ → ℕ) (cap h n : ℕ)
    → h ≤ cap
    → n ≤ cap
    → window items cap h (suc n) ≡ window items cap h n ++ items (ahead cap h n) ∷ []
window-append items cap h zero p q = ground arith
window-append items cap h (suc n) p q =
    ap (λ xs. items h ∷ xs)
      (window-append items cap (step cap h) n (ground arith) (omega arith)
        ∙ ap (λ i. window items cap (step cap h) n ++ items i ∷ []) (ahead-step cap h n p q))

-- A cell `k` steps ahead is outside the window of `n ≤ k` cells.
pub window-update :
    (items : ℕ → ℕ) (cap h n k x i : ℕ)
    → h ≤ cap
    → n ≤ k
    → k ≤ cap
    → i ≡ ahead cap h k
    → window (update items i x) cap h n ≡ window items cap h n
window-update items cap h zero k x i hh hn hk e = refl
window-update items cap h (suc n) k x i hh hn hk e = ap₂ ◌∷◌ (update_ne items x (ground arith)) (
    window-update items cap (step cap h) n (k - 1) x i (ground arith) (omega arith) (omega arith)
      (ground arith))

-- Writing just past a window of `n` cells extends it by that item.
pub window-update_next :
    (items : ℕ → ℕ) (cap h n x i : ℕ)
    → h ≤ cap
    → n ≤ cap
    → i ≡ ahead cap h n
    → window (update items i x) cap h (suc n) ≡ window items cap h n ++ x ∷ []
window-update_next items cap h n x i hh hn e =
    window-append (update items i x) cap h n hh hn
    ∙ ap₂ (λ xs y. xs ++ y ∷ []) (window-update items cap h n n x i hh (omega arith) hn e)
        (rw (← e) (update_self items i x))

-- `queue_push` past its NULL checks answers as the bounded list, and leaves the queue holding it.
pub push_refines :
    {q : Queue} (x : ℕ)
    → IsValid q
    → ((push_live q x).0, contents (push_live q x).1) ≡ Fifo.push q.capacity (contents q) x
unfolding push_live Fifo.push
push_refines {q} x v = ground (
  arith,
  length-window q.items q.capacity q.head (used q),
  next_lem q q.tail,
  used-le-capacity v,
  window-update_next q.items q.capacity q.head (used q) x q.tail,
)

-- `queue_pop` hands out the oldest item, and removes it unless it peeks.
pub pop_refines :
    {q : Queue}
    → IsValid q
    → ((pop_live q false).0, contents (pop_live q false).1) ≡ Fifo.pop (contents q)
unfolding pop_live Fifo.pop
pop_refines {q} v =
    ground (arith, next_lem q q.head, window_of_ne_zero q.items q.capacity q.head (used q))

pub peek_refines :
    (q : Queue)
    → IsValid q
    → ((pop_live q true).0 ≡ (Fifo.pop (contents q)).0) × ((pop_live q true).1 ≡ q)
unfolding pop_live Fifo.pop
peek_refines q v = ground (arith, window_of_ne_zero q.items q.capacity q.head (used q))
