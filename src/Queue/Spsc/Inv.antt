-- ===== src/Queue/Spsc/Inv.antt =====
-- What holds at each point of the two threads.
use upy_android.Prelude.{
  ℕ, ◌-◌, ◌<◌, ◌≡◌, ◌≢◌, refl, sym, ap, ◌∙◌, List, [], ◌∷◌, ◌++◌, arith, append-nil, append_assoc,
  suc,
}
use upy_android.Prelude.Words.{size_mod, update_self}
use upy_android.Queue.{Queue, next}
use upy_android.Queue.Inv.{IsValid, used, next_lem, used-le-capacity}
use upy_android.Queue.Refine.{
  contents, window, ahead, window-append, window-update, window_of_ne_zero,
}
use upy_android.Queue.Spsc.{
  Producer, loaded, checked, written, ProducerStep, load_tail, full, room, store_item, store_tail,
  Consumer, saw_head, nonempty, indexed, took, ConsumerStep, load_head, empty, some_item,
  reload_head, load_item, peek, store_head, System, Step, produce, consume, Reach, start, later,
}

-- What the locals of the producer say: only it writes `tail`, and room stays room, since the
-- consumer only frees cells.
abbrev pub ProducerOk : Queue → Producer → Type 0
ProducerOk q Producer.idle = Unit
ProducerOk q (loaded x t) = t ≡ q.tail
ProducerOk q (checked x t n) = (t ≡ q.tail) × (n ≡ next q t) × (n ≢ q.head)
ProducerOk q (written x t n) = (t ≡ q.tail) × (n ≡ next q t) × (n ≢ q.head) × (q.items t ≡ x)

-- And of the consumer: only it writes `head`, and an item stays there until it is taken.
abbrev pub ConsumerOk : Queue → Consumer → Type 0
ConsumerOk q Consumer.idle = Unit
ConsumerOk q (saw_head h) = h ≡ q.head
ConsumerOk q nonempty = q.head ≢ q.tail
ConsumerOk q (indexed h) = (h ≡ q.head) × (h ≢ q.tail)
ConsumerOk q (took h x) = (h ≡ q.head) × (h ≢ q.tail) × (x ≡ q.items h)

pub record Inv (s : System) : Type 0 where
  pub valid : IsValid s.queue
  pub producing : ProducerOk s.queue s.producer
  pub consuming : ConsumerOk s.queue s.consumer
  pub kept : s.sent ≡ s.received ++ contents s.queue

-- What a step of the producer does to the queue, whatever the consumer is at.
produce-IsValid :
    {q q' : Queue} {p p' : Producer} {out : List ℕ}
    → ProducerStep q p q' p' out
    → IsValid q
    → ProducerOk q p
    → IsValid q' × ProducerOk q' p'
produce-IsValid (load_tail h) v ok = (v, refl)
produce-IsValid (full e) v ok = (v, tt)
produce-IsValid (room n) v ok = (v, (ok, refl, n))
produce-IsValid {q} (store_item {item} {t}) v ok = (
  record { small = v.small; head_in = v.head_in; tail_in = v.tail_in },
  (ok.0, ok.1, ok.2, update_self q.items t item),
)
produce-IsValid {q} (store_tail {t}) v ok = (ground (arith, next_lem q t), tt)

produce-contents :
    {q q' : Queue} {p p' : Producer} {out : List ℕ}
    → ProducerStep q p q' p' out
    → IsValid q
    → ProducerOk q p
    → contents q' ≡ contents q ++ out
produce-contents (load_tail h) v ok = sym (append-nil _)
produce-contents (full e) v ok = sym (append-nil _)
produce-contents (room n) v ok = sym (append-nil _)
produce-contents {q} (store_item {item} {t} {n}) v ok =
    window-update q.items q.capacity q.head (used q) (used q) item t v.head_in (omega arith)
      (used-le-capacity v) (ground (arith, v))
    ∙ sym (append-nil _)
produce-contents {q} (store_tail {item} {t} {n}) v ok =
    let longer : used (record q { tail = n }) ≡ suc (used q) = ground (arith, next_lem q t, v) in
    let place : q.items (ahead q.capacity q.head (used q)) ≡ item =
      ap q.items (ground (arith, v)) ∙ ok.3 in
    ap (window q.items q.capacity q.head) longer
    ∙ window-append q.items q.capacity q.head (used q) v.head_in (used-le-capacity v)
    ∙ ap (λ x. contents q ++ x ∷ []) place

produce-ConsumerOk :
    {q q' : Queue} {p p' : Producer} {out : List ℕ} (c : Consumer)
    → ProducerStep q p q' p' out
    → IsValid q
    → ProducerOk q p
    → ConsumerOk q c
    → ConsumerOk q' c
produce-ConsumerOk c (load_tail h) v ok co = co
produce-ConsumerOk c (full e) v ok co = co
produce-ConsumerOk c (room n) v ok co = co
produce-ConsumerOk Consumer.idle store_item v ok co = tt
produce-ConsumerOk (saw_head h) store_item v ok co = co
produce-ConsumerOk nonempty store_item v ok co = co
produce-ConsumerOk (indexed h) store_item v ok co = co
produce-ConsumerOk (took h x) store_item v ok co = ground arith
produce-ConsumerOk Consumer.idle store_tail v ok co = tt
produce-ConsumerOk (saw_head h) store_tail v ok co = co
produce-ConsumerOk nonempty store_tail v ok co = ground arith
produce-ConsumerOk (indexed h) store_tail v ok co = ground arith
produce-ConsumerOk (took h x) store_tail v ok co = ground arith

-- What a step of the consumer does.
consume-IsValid :
    {q q' : Queue} {c c' : Consumer} {out : List ℕ}
    → ConsumerStep q c q' c' out
    → IsValid q
    → ConsumerOk q c
    → IsValid q' × ConsumerOk q' c'
consume-IsValid load_head v ok = (v, refl)
consume-IsValid (empty e) v ok = (v, tt)
consume-IsValid (some_item n) v ok = (v, ground arith)
consume-IsValid reload_head v ok = (v, (refl, ok))
consume-IsValid load_item v ok = (v, (ok.0, ok.1, refl))
consume-IsValid peek v ok = (v, tt)
consume-IsValid {q} (store_head {h}) v ok = (ground (arith, next_lem q h), tt)

consume-contents :
    {q q' : Queue} {c c' : Consumer} {out : List ℕ}
    → ConsumerStep q c q' c' out
    → IsValid q
    → ConsumerOk q c
    → contents q ≡ out ++ contents q'
consume-contents load_head v ok = refl
consume-contents (empty e) v ok = refl
consume-contents (some_item n) v ok = refl
consume-contents reload_head v ok = refl
consume-contents load_item v ok = refl
consume-contents peek v ok = refl
consume-contents {q} (store_head {h}) v ok =
    ground (arith, next_lem q h, window_of_ne_zero q.items q.capacity q.head (used q))

consume-ProducerOk :
    {q q' : Queue} {c c' : Consumer} {out : List ℕ} (p : Producer)
    → ConsumerStep q c q' c' out
    → IsValid q
    → ConsumerOk q c
    → ProducerOk q p
    → ProducerOk q' p
consume-ProducerOk p load_head v ok po = po
consume-ProducerOk p (empty e) v ok po = po
consume-ProducerOk p (some_item n) v ok po = po
consume-ProducerOk p reload_head v ok po = po
consume-ProducerOk p load_item v ok po = po
consume-ProducerOk p peek v ok po = po
consume-ProducerOk Producer.idle store_head v ok po = tt
consume-ProducerOk (loaded x t) store_head v ok po = po
consume-ProducerOk {q} (checked x t n) (store_head {h}) v ok po =
    ground (arith, next_lem q h, next_lem q t)
consume-ProducerOk {q} (written x t n) (store_head {h}) v ok po =
    ground (arith, next_lem q h, next_lem q t)

Step-Inv : {s t : System} → Step s t → Inv s → Inv t
Step-Inv {s} (produce {out} mv) inv =
    let both = produce-IsValid mv inv.valid inv.producing in
    record {
      valid = both.0;
      producing = both.1;
      consuming = produce-ConsumerOk s.consumer mv inv.valid inv.producing inv.consuming;
      kept =
          ap (λ xs. xs ++ out) inv.kept
          ∙ append_assoc s.received (contents s.queue) out
          ∙ ap (λ xs. s.received ++ xs) (sym (produce-contents mv inv.valid inv.producing));
    }
Step-Inv {s} (consume {q} {out} mv) inv =
    let both = consume-IsValid mv inv.valid inv.consuming in
    record {
      valid = both.0;
      producing = consume-ProducerOk s.producer mv inv.valid inv.consuming inv.producing;
      consuming = both.1;
      kept =
          inv.kept
          ∙ ap (λ xs. s.received ++ xs) (consume-contents mv inv.valid inv.consuming)
          ∙ sym (append_assoc s.received out (contents q));
    }

-- Every state that the two threads reach keeps the invariant.
pub Reach-Inv : {q : Queue} {s : System} → q.capacity < size_mod - 1 → Reach q s → Inv s
Reach-Inv small start = record { valid = omega arith; producing = tt; consuming = tt; kept = refl }
Reach-Inv small (later r st) = Step-Inv st (Reach-Inv small r)
