-- ===== src/Queue.antt =====
-- native-bringup/my-overrides/openmv/queue.c and queue.h: a bounded queue of pointers in a ring.
-- A `queue_t *` is an `Option`, `none` for NULL; a function that writes through it returns the new
-- value. The atomic accesses stand for plain ones here; `Queue.Spsc` interleaves them.
pub mod Inv
pub mod Fifo
pub mod Refine
pub mod Swap
pub mod Client
pub mod Moves
pub mod Alloc
pub mod Spsc
mod Tests
use upy_android.Prelude.{
  ℕ, zero, suc, ◌+◌, ◌-◌, ◌*◌, ◌%◌, ◌^◌, Bool, true, false, Option, none, some, List, [], ◌∷◌,
  if◌then◌else◌, ◌==◌, leb,
}
use upy_android.Prelude.Words.{add_size, sub_size, mul_size, null, update}

-- `queue_t`. `items` is the flexible array member, a cell for each index.
pub record Queue : Type 0 where
  pub capacity : ℕ
  pub head : ℕ
  pub tail : ℕ
  pub items : ℕ → ℕ

-- Three words before the flexible array member.
abbrev pub sizeof_queue : ℕ
sizeof_queue = 24

-- `queue_calc_size`
unfoldable pub calc_size : ℕ → ℕ
calc_size capacity = add_size sizeof_queue (mul_size (add_size capacity 1) 8)

-- `queue_flush` at a queue that exists.
pub flush_live : Queue → Queue
flush_live q = record q { head = 0; tail = 0 }

-- `queue_flush`
pub flush : Option Queue → Option Queue
unfolding flush_live
flush none = none
flush (some q) = some (flush_live q)

-- What the cast in `queue_init` makes of a buffer, before `capacity` is written: its three words
-- and its cells are what the memory held.
pub record Buffer : Type 0 where
  pub head_word : ℕ
  pub tail_word : ℕ
  pub cells : ℕ → ℕ

-- `queue_init`. The first argument is `queue_t **q`: `none` for NULL, else what `*q` is. The result
-- is what `*q` is afterwards.
unfoldable pub init : Option (Option Queue) → ℕ → Option Buffer → Option (Option Queue)
unfolding flush
init none capacity buffer = none
init (some old) capacity none = some old
init (some old) capacity (some b) = some (
    flush (
      some
        (record { capacity = capacity; head = b.head_word; tail = b.tail_word; items = b.cells })))

-- `queue_alloc`, over `malloc`: the block of that many bytes, or `none`.
pub alloc : (ℕ → Option Buffer) → ℕ → Option Queue
unfolding init
alloc malloc capacity = if capacity == 0 then none else elim (malloc (calc_size capacity)) [
  | none ↦ none
  | some b ↦ elim (init (some none) capacity (some b)) [ none ↦ none | some q ↦ q ]
]

-- The index after `i`: `(i + 1) % (capacity + 1)`.
abbrev pub next : Queue → ℕ → ℕ
next q i = add_size i 1 % add_size q.capacity 1

-- `queue_push` past its NULL checks.
unfoldable pub push_live : Queue → ℕ → Bool × Queue
push_live q item =
    if next q q.tail == q.head
    then (false, q)
    else (true, record q { items = update q.items q.tail item; tail = next q q.tail })

-- `queue_push`
unfoldable pub push : Option Queue → ℕ → Bool × Option Queue
unfolding push_live
push none item = (false, none)
push (some q) item =
    if item == null then (false, some q) else ((push_live q item).0, some (push_live q item).1)

-- `queue_is_empty`
unfoldable pub is_empty : Option Queue → Bool
is_empty none = true
is_empty (some q) = q.head == q.tail

-- `queue_pop` at a queue that exists.
unfoldable pub pop_live : Queue → Bool → ℕ × Queue
unfolding is_empty
pop_live q peek =
    if is_empty (some q)
    then (null, q)
    else (q.items q.head, if peek then q else record q { head = next q q.head })

-- `queue_pop`
unfoldable pub pop : Option Queue → Bool → ℕ × Option Queue
unfolding pop_live
pop none peek = (null, none)
pop (some q) peek = ((pop_live q peek).0, some (pop_live q peek).1)

-- `queue_size`
unfoldable pub size : Option Queue → ℕ
size none = 0
size (some q) =
    if leb q.head q.tail
    then q.tail - q.head
    else add_size (sub_size (add_size q.capacity 1) q.head) q.tail

-- The index before the tail, round the ring.
abbrev pub last : Queue → ℕ
last q = if q.tail == 0 then q.capacity else q.tail - 1

-- `queue_swap`: the item handed back, and the two queues. They are different objects.
unfoldable pub swap : Queue → Queue → ℕ × Queue × Queue
swap q0 q1 = (
  q0.items (last q0),
  record q0 { items = update q0.items (last q0) (q1.items q1.head) },
  record q1 { items = update q1.items q1.head (q0.items (last q0)) },
)

-- The calls of a client, in order, with the value that each returns.
pub data Call : Type 0 where
  pushes : ℕ → Call
  pops peeks sizes tests_empty flushes : Call

pub data Reply : Type 0 where
  accepted : Bool → Reply
  item : ℕ → Reply
  count : ℕ → Reply
  done : Reply

unfoldable pub call : Option Queue → Call → Reply × Option Queue
unfolding push pop size is_empty flush
call q (pushes x) = (accepted (push q x).0, (push q x).1)
call q pops = (item (pop q false).0, (pop q false).1)
call q peeks = (item (pop q true).0, (pop q true).1)
call q sizes = (count (size q), q)
call q tests_empty = (accepted (is_empty q), q)
call q flushes = (done, flush q)

pub run : Option Queue → List Call → List Reply
unfolding call
run q [] = []
run q (c ∷ cs) = (call q c).0 ∷ run (call q c).1 cs
