-- ===== src/Queue/Alloc.antt =====
-- `queue_alloc`: the block it asks for, and the queue that it makes of it.
use upy_android.Prelude.{
  ℕ, ◌+◌, ◌*◌, ◌-◌, ◌^◌, ◌≤◌, ◌<◌, ◌≡◌, ◌≢◌, ap, ◌∙◌, ◌⊎◌, Option, none, some, List, [], arith,
}
use upy_android.Prelude.Words.{size_mod}
use upy_android.Queue.{Queue, Buffer, Call, calc_size, alloc, init, run, sizeof_queue}
use upy_android.Queue.Fifo
use upy_android.Queue.Inv.{IsValid}
use upy_android.Queue.Client.{run_refines}

-- Below this many items `queue_calc_size` does not wrap.
abbrev pub max_capacity : ℕ
max_capacity = 2 ^ 61 - 4

-- For a capacity below 2^61 - 4, the block of `queue_calc_size` bytes holds the header and each of
-- the `capacity + 1` cells.
calc_size-room :
    (capacity i : ℕ)
    → capacity < max_capacity
    → i ≤ capacity
    → sizeof_queue + 8 * (i + 1) ≤ calc_size capacity
unfolding calc_size
calc_size-room capacity i small h = omega arith

-- A bug: for a capacity from 2^61 - 4 on, below 2^64 - 1, `queue_calc_size` wraps, and the block is
-- too small for the header and the cells.
pub calc_size_wraps :
    (capacity : ℕ)
    → max_capacity ≤ capacity
    → capacity < size_mod - 1
    → calc_size capacity < sizeof_queue + 8 * (capacity + 1)
unfolding calc_size
calc_size_wraps capacity h small = omega arith

-- The queue that `queue_init` makes of a block.
abbrev fresh : ℕ → Buffer → Queue
fresh capacity b = record { capacity = capacity; head = 0; tail = 0; items = b.cells }

alloc-fresh :
    (malloc : ℕ → Option Buffer) (capacity : ℕ) (b : Buffer)
    → capacity ≢ 0
    → malloc (calc_size capacity) ≡ some b
    → alloc malloc capacity ≡ some (fresh capacity b)
unfolding alloc init
alloc-fresh malloc capacity b ne got = ground arith

-- `queue_alloc` fails for capacity 0 and where `malloc` fails.
pub alloc_fails :
    (malloc : ℕ → Option Buffer) (capacity : ℕ)
    → (capacity ≡ 0) ⊎ (malloc (calc_size capacity) ≡ none)
    → alloc malloc capacity ≡ none
unfolding alloc
alloc_fails malloc capacity h = ground arith

-- For a positive capacity at which `queue_calc_size` does not wrap, and a `malloc` that succeeds,
-- `queue_alloc` returns a valid queue that no sequence of calls tells from an empty bounded list.
pub alloc_lem :
    (malloc : ℕ → Option Buffer) (capacity : ℕ) (b : Buffer) (cs : List Call)
    → capacity ≢ 0
    → capacity < max_capacity
    → malloc (calc_size capacity) ≡ some b
    → (q : Queue) × (alloc malloc capacity ≡ some q)
      × IsValid q
      × (run (alloc malloc capacity) cs ≡ Fifo.run capacity [] cs)
alloc_lem malloc capacity b cs ne small got = (
  fresh capacity b,
  alloc-fresh malloc capacity b ne got,
  omega arith,
  ap (λ q. run q cs) (alloc-fresh malloc capacity b ne got) ∙ run_refines cs (omega arith),
)
