-- ===== src/Queue/Client.antt =====
-- A client that reaches a queue through its pointer.
use upy_android.Prelude.{
  ℕ, ◌≡◌, refl, true, false, Option, some, List, [], ◌∷◌, arith, ◌==◌, ap, ◌∙◌, if◌then◌else◌,
}
use mathlib.Core.Path.{ap₂}
use upy_android.Queue.{Queue, call, run, push_live, flush_live, pop_live}
use upy_android.Prelude.Words.{null}
use upy_android.Queue.{Call, pushes, pops, peeks, sizes, tests_empty, flushes, Reply}
use upy_android.Queue.Fifo
use upy_android.Queue.Inv.{
  IsValid, used, size-used, push_live-IsValid, pop_live-IsValid, flush_live-IsValid,
}
use upy_android.Queue.Refine.{contents, length-window, push_refines, pop_refines, peek_refines}

-- The queue that a call leaves.
abbrev after : Queue → Call → Queue
after q (pushes x) = if x == null then q else (push_live q x).1
after q pops = (pop_live q false).1
after q peeks = (pop_live q true).1
after q sizes = q
after q tests_empty = q
after q flushes = flush_live q

call-after : (q : Queue) (c : Call) → call (some q) c ≡ ((call (some q) c).0, some (after q c))
unfolding call
call-after q (pushes x) = ground arith
call-after q pops = refl
call-after q peeks = refl
call-after q sizes = refl
call-after q tests_empty = refl
call-after q flushes = refl

-- Every call of a client keeps the queue valid.
pub after-IsValid : {q : Queue} (c : Call) → IsValid q → IsValid (after q c)
after-IsValid {q} (pushes x) v = ground (arith, push_live-IsValid x v)
after-IsValid pops v = pop_live-IsValid false v
after-IsValid peeks v = pop_live-IsValid true v
after-IsValid sizes v = v
after-IsValid tests_empty v = v
after-IsValid {q} flushes v = flush_live-IsValid q v.small

capacity-after : (q : Queue) (c : Call) → (after q c).capacity ≡ q.capacity
unfolding push_live pop_live flush_live
capacity-after q (pushes x) = ground arith
capacity-after q pops = ground arith
capacity-after q peeks = ground arith
capacity-after q sizes = refl
capacity-after q tests_empty = refl
capacity-after q flushes = refl

-- One call answers as the bounded list does, and leaves the queue holding what the list holds.
pub call_refines :
    {q : Queue} (c : Call)
    → IsValid q
    → ((call (some q) c).0, contents (after q c)) ≡ Fifo.call q.capacity (contents q) c
unfolding call Fifo.call
call_refines {q} (pushes x) v = ground (arith, push_refines x v)
call_refines pops v = ground (arith, pop_refines v)
call_refines {q} peeks v = ground (arith, peek_refines q v)
call_refines {q} sizes v =
    ground (arith, size-used v, length-window q.items q.capacity q.head (used q))
call_refines {q} tests_empty v = ground (arith, v, length-window q.items q.capacity q.head (used q))
call_refines {q} flushes v = refl

-- No sequence of calls tells a valid queue from the bounded list of its contents: items come out
-- in the order in which they went in, each once, and a push is refused exactly at capacity.
pub run_refines :
    (cs : List Call) {q : Queue} → IsValid q → run (some q) cs ≡ Fifo.run q.capacity (contents q) cs
unfolding run Fifo.run
run_refines [] v = refl
run_refines (c ∷ cs) {q} v = ap₂ ◌∷◌ (ap (λ (r : Reply × List ℕ). r.0) (call_refines c v)) (
    ap (λ (r : Reply × Option Queue). run r.1 cs) (call-after q c)
    ∙ run_refines cs (after-IsValid c v)
    ∙ ap (λ k. Fifo.run k (contents (after q c)) cs) (capacity-after q c)
    ∙ ap (λ (r : Reply × List ℕ). Fifo.run q.capacity r.1 cs) (call_refines c v))
