-- ===== src/Queue/Swap.antt =====
-- `queue_swap`, the exchange that the frame buffer makes between its two queues.
use upy_android.Prelude.{ℕ, suc, ◌-◌, ◌≡◌, ◌≢◌, ap, ◌∙◌, List, [], ◌∷◌, ◌++◌, arith}
use mathlib.Core.Path.{ap₂}
use upy_android.Prelude.Words.{update, update_self}
use upy_android.Queue.{Queue, swap, last}
use upy_android.Queue.Inv.{IsValid, used, used-le-capacity}
use upy_android.Queue.Refine.{
  contents, window, step, ahead, window-append, window-update, window-update_next,
  window_of_ne_zero,
}

-- All items but the newest, and all but the oldest.
abbrev pub older : Queue → List ℕ
older q = window q.items q.capacity q.head (used q - 1)

abbrev pub newer : Queue → List ℕ
newer q = window q.items q.capacity (step q.capacity q.head) (used q - 1)

pub contents-newest :
    {q : Queue} → IsValid q → used q ≢ 0 → contents q ≡ older q ++ q.items (last q) ∷ []
contents-newest {q} v ne =
    let whole : used q ≡ suc (used q - 1) = omega arith in
    let place : ahead q.capacity q.head (used q - 1) ≡ last q = ground (arith, v) in
    ap (window q.items q.capacity q.head) whole
    ∙ window-append q.items q.capacity q.head (used q - 1) v.head_in
        (omega (arith, used-le-capacity v))
    ∙ ap (λ i. older q ++ q.items i ∷ []) place

pub contents-oldest : (q : Queue) → used q ≢ 0 → contents q ≡ q.items q.head ∷ newer q
contents-oldest q ne = window_of_ne_zero q.items q.capacity q.head (used q) ne

-- Between two different valid queues that hold an item each, `queue_swap` exchanges the newest item
-- of the first and the oldest of the second, hands back the former, and moves nothing else.
pub swap_lem :
    (q0 q1 : Queue)
    → IsValid q0
    → IsValid q1
    → used q0 ≢ 0
    → used q1 ≢ 0
    → let (item, r0, r1) = swap q0 q1 in
      (contents q0 ≡ older q0 ++ item ∷ [])
      × (contents q1 ≡ q1.items q1.head ∷ newer q1)
      × (contents r0 ≡ older q0 ++ q1.items q1.head ∷ [])
      × (contents r1 ≡ item ∷ newer q1)
unfolding swap
swap_lem q0 q1 v0 v1 n0 n1 =
    (contents-newest v0 n0, contents-oldest q1 n1, replaced_newest, replaced_oldest)
  where
    k : ℕ
    k = used q0 - 1

    replaced_newest :
        contents (record q0 { items = update q0.items (last q0) (q1.items q1.head) })
        ≡ older q0 ++ q1.items q1.head ∷ []
    replaced_newest =
        let whole : used q0 ≡ suc k = omega arith in
        ap (window (update q0.items (last q0) (q1.items q1.head)) q0.capacity q0.head) whole
        ∙ window-update_next q0.items q0.capacity q0.head k (q1.items q1.head) (last q0) v0.head_in
            (omega (arith, used-le-capacity v0)) (ground (arith, v0))

    replaced_oldest :
        contents (record q1 { items = update q1.items q1.head (q0.items (last q0)) })
        ≡ q0.items (last q0) ∷ newer q1
    replaced_oldest =
        window_of_ne_zero (update q1.items q1.head (q0.items (last q0))) q1.capacity q1.head
          (used q1) n1
        ∙ ap₂ ◌∷◌ (update_self q1.items q1.head (q0.items (last q0))) (
            window-update q1.items q1.capacity (step q1.capacity q1.head) (used q1 - 1) q1.capacity
              (q0.items (last q0)) q1.head (ground (arith, v1)) (omega (arith, used-le-capacity v1))
              (omega arith) (ground (arith, v1)))
