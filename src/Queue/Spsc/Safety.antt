-- ===== src/Queue/Spsc/Safety.antt =====
-- What two threads may rely on.
use upy_android.Prelude.{ℕ, ◌-◌, ◌≤◌, ◌<◌, ◌≡◌, ◌≢◌, sym, ◌∙◌, ◌++◌, arith, length}
use mathlib.Core.Path.{subst}
use upy_android.Prelude.Words.{size_mod}
use upy_android.Queue.{Queue}
use upy_android.Queue.Inv.{used, used-le-capacity}
use upy_android.Queue.Refine.{contents, length-window}
use upy_android.Queue.Spsc.{System, Reach, checked, indexed}
use upy_android.Queue.Spsc.Inv.{Reach-Inv, ProducerOk, ConsumerOk}

-- In every state that one producer and one consumer reach from a flushed queue with a capacity
-- below 2^64 - 1, what was published is what was handed out followed by what the queue holds:
-- nothing is lost, doubled or reordered. And the queue never holds more than its capacity.
pub no_loss :
    {q : Queue} {s : System}
    → q.capacity < size_mod - 1
    → Reach q s
    → (s.sent ≡ s.received ++ contents s.queue) × (length (contents s.queue) ≤ s.queue.capacity)
no_loss {s} small r =
    let inv = Reach-Inv small r in
    (
      inv.kept,
      omega (
        arith,
        used-le-capacity inv.valid,
        length-window s.queue.items s.queue.capacity s.queue.head (used s.queue),
      ),
    )

-- In every such state, also of a queue with a capacity below 2^64 - 1, the cell that the producer
-- is about to write is not the one that the consumer is about to read, so the plain accesses to
-- `items` do not race.
pub no_race :
    {q : Queue} {s : System} {x t n h : ℕ}
    → q.capacity < size_mod - 1
    → Reach q s
    → s.producer ≡ checked x t n
    → s.consumer ≡ indexed h
    → t ≢ h
no_race {s} small r p c =
    let inv = Reach-Inv small r in
    let po = subst (ProducerOk s.queue) p inv.producing in
    let co = subst (ConsumerOk s.queue) c inv.consuming in λ e. co.1 (sym e ∙ po.0)
