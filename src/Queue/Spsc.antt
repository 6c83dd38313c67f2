-- ===== src/Queue/Spsc.antt =====
-- queue.c between two threads: one that pushes, one that pops. Each step is one shared access of
-- `queue_push` or `queue_pop`, in an order that acquire and release keep; the threads interleave
-- freely. `sent` and `received` record what was published and handed out.
pub mod Inv
pub mod Safety
use upy_android.Prelude.{ℕ, ◌≡◌, ◌≢◌, List, [], ◌∷◌, ◌++◌}
use upy_android.Prelude.Words.{null, update}
use upy_android.Queue.{Queue, next, flush_live}

-- Where the producer stands in `queue_push`, with its local variables.
pub data Producer : Type 0 where
  idle : Producer
  loaded : (item old_tail : ℕ) → Producer
  checked : (item old_tail new_tail : ℕ) → Producer
  written : (item old_tail new_tail : ℕ) → Producer

pub data ProducerStep (q : Queue) : Producer → Queue → Producer → List ℕ → Type 0 where
  load_tail : {item : ℕ} → item ≢ null → ProducerStep q idle q (loaded item q.tail) []
  full : {item t : ℕ} → next q t ≡ q.head → ProducerStep q (loaded item t) q idle []
  room :
      {item t : ℕ}
      → next q t ≢ q.head
      → ProducerStep q (loaded item t) q (checked item t (next q t)) []
  store_item :
      {item t n : ℕ}
      → ProducerStep q
          (checked item t n)
          (record q { items = update q.items t item })
          (written item t n)
          []
  store_tail :
      {item t n : ℕ} → ProducerStep q (written item t n) (record q { tail = n }) idle (item ∷ [])

-- Where the consumer stands in `queue_pop`: in `queue_is_empty`, then behind it.
pub data Consumer : Type 0 where
  idle : Consumer
  saw_head : (head : ℕ) → Consumer
  nonempty : Consumer
  indexed : (old_head : ℕ) → Consumer
  took : (old_head item : ℕ) → Consumer

pub data ConsumerStep (q : Queue) : Consumer → Queue → Consumer → List ℕ → Type 0 where
  load_head : ConsumerStep q Consumer.idle q (saw_head q.head) []
  empty : {h : ℕ} → h ≡ q.tail → ConsumerStep q (saw_head h) q Consumer.idle []
  some_item : {h : ℕ} → h ≢ q.tail → ConsumerStep q (saw_head h) q nonempty []
  reload_head : ConsumerStep q nonempty q (indexed q.head) []
  load_item : {h : ℕ} → ConsumerStep q (indexed h) q (took h (q.items h)) []
  peek : {h x : ℕ} → ConsumerStep q (took h x) q Consumer.idle []
  store_head :
      {h x : ℕ} → ConsumerStep q (took h x) (record q { head = next q h }) Consumer.idle (x ∷ [])

pub record System : Type 0 where
  pub queue : Queue
  pub producer : Producer
  pub consumer : Consumer
  pub sent : List ℕ
  pub received : List ℕ

pub data Step (s : System) : System → Type 0 where
  produce :
      {q : Queue} {p : Producer} {out : List ℕ}
      → ProducerStep s.queue s.producer q p out
      → Step s (record s { queue = q; producer = p; sent = s.sent ++ out })
  consume :
      {q : Queue} {c : Consumer} {out : List ℕ}
      → ConsumerStep s.queue s.consumer q c out
      → Step s (record s { queue = q; consumer = c; received = s.received ++ out })

-- A flushed queue, and both threads outside it.
abbrev pub initial : Queue → System
initial q = record {
  queue = record q { head = 0; tail = 0 };
  producer = Producer.idle;
  consumer = Consumer.idle;
  sent = [];
  received = [];
}

pub data Reach (q : Queue) : System → Type 0 where
  start : Reach q (initial q)
  later : {s t : System} → Reach q s → Step s t → Reach q t
