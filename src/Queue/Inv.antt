-- ===== src/Queue/Inv.antt =====
-- The representation invariant of `queue_t`, and the room that `queue_calc_size` asks for.
use upy_android.Prelude.{ℕ, ◌+◌, ◌-◌, ◌≤◌, ◌<◌, ◌≡◌, Bool, some, arith, ltb, leb, if◌then◌else◌}
use upy_android.Prelude.Words.{size_mod, add_size, mod-next}
use upy_android.Queue.{Queue, flush_live, next, push_live, pop_live, size}

-- One slot more than `capacity`; no index leaves the array.
pub record IsValid (q : Queue) : Type 0 where
  pub small : q.capacity < size_mod - 1
  pub head_in : q.head ≤ q.capacity
  pub tail_in : q.tail ≤ q.capacity

-- What `next` computes: the `size_t` additions do not wrap.
pub next_lem :
    (q : Queue) (i : ℕ)
    → q.capacity < size_mod - 1
    → i ≤ q.capacity
    → next q i ≡ (if ltb i q.capacity then i + 1 else 0)
next_lem q i small h =
    let e : add_size i 1 ≡ i + 1 = omega arith in
    let f : add_size q.capacity 1 ≡ q.capacity + 1 = omega arith in
    ground (arith, mod-next i (q.capacity + 1), e, f)

-- How many items are between head and tail.
abbrev pub used : Queue → ℕ
used q = if leb q.head q.tail then q.tail - q.head else q.capacity + 1 - q.head + q.tail

pub size-used : {q : Queue} → IsValid q → size (some q) ≡ used q
unfolding size
size-used v = ground arith

pub used-le-capacity : {q : Queue} → IsValid q → used q ≤ q.capacity
used-le-capacity v = ground arith

pub flush_live-IsValid : (q : Queue) → q.capacity < size_mod - 1 → IsValid (flush_live q)
unfolding flush_live
flush_live-IsValid q h = ground arith

pub push_live-IsValid : {q : Queue} (x : ℕ) → IsValid q → IsValid (push_live q x).1
unfolding push_live
push_live-IsValid {q} x v = ground (arith, next_lem q q.tail)

pub pop_live-IsValid : {q : Queue} (peek : Bool) → IsValid q → IsValid (pop_live q peek).1
unfolding pop_live
pop_live-IsValid {q} peek v = ground (arith, next_lem q q.head)
