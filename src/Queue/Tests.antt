-- ===== src/Queue/Tests.antt =====
-- Runs of queue.c at small inputs.
use upy_android.Prelude.{
  ℕ, ◌+◌, ◌≤◌, ◌≡◌, ◌≢◌, refl, true, false, none, some, List, [], ◌∷◌, ◌++◌, arith, length,
}
use upy_android.Prelude.Words.{update}
use upy_android.Queue.{Queue, Buffer, Call, pushes, pops, peeks, sizes, tests_empty, flushes}
use upy_android.Queue.{accepted, item, count, done, init, run}
use upy_android.Queue.Fifo
use upy_android.Queue.Inv.{IsValid}
use upy_android.Queue.Refine.{contents}
use upy_android.Queue.Client.{run_refines}
use upy_android.Queue.Spsc.{
  System, Reach, start, later, produce, consume, load_tail, room, store_item, store_tail, load_head,
  some_item, reload_head, checked, indexed,
}
use upy_android.Queue.Spsc.Safety.{no_loss, no_race}

abbrev cells : ℕ → ℕ
cells i = 10 + i

-- 12, then 10 and 11, round the end of the ring of three cells
abbrev wrapped : Queue
wrapped = record { capacity = 3; head = 2; tail = 1; items = cells }

abbrev other : Queue
other = record { capacity = 3; head = 1; tail = 3; items = λ i. 20 + i }

abbrev block : Buffer
block = record { head_word = 7; tail_word = 9; cells = cells }

abbrev calls : List Call
calls = pushes 5 ∷ pushes 0 ∷ sizes ∷ peeks ∷ pops ∷ flushes ∷ tests_empty ∷ pops ∷ []

wrapped-IsValid : IsValid wrapped
wrapped-IsValid = omega arith

contents-wrapped : contents wrapped ≡ 12 ∷ 13 ∷ 10 ∷ []
contents-wrapped = refl

run-wrapped :
    run (some wrapped) calls
    ≡ accepted false
      ∷ accepted false
      ∷ count 3
      ∷ item 12
      ∷ item 12
      ∷ done
      ∷ accepted true
      ∷ item 0
      ∷ []
unfolding run
run-wrapped = refl

init_null : init none 3 (some block) ≡ none
unfolding init
init_null = refl

run_refines_example : run (some wrapped) calls ≡ Fifo.run 3 (12 ∷ 13 ∷ 10 ∷ []) calls
run_refines_example = run_refines calls wrapped-IsValid

-- The producer has stored one item and is about to store a second; the consumer is about to read.
abbrev race : System
race = record {
  queue = record { capacity = 3; head = 0; tail = 1; items = update cells 0 5 };
  producer = checked 6 1 2;
  consumer = indexed 0;
  sent = 5 ∷ [];
  received = [];
}

racing : Reach wrapped race
racing =
    later
      (later
        (later
          (later
            (later
              (later
                (later
                  (later (later start (produce (load_tail {item = 5} (omega arith))))
                    (produce (room (omega arith))))
                  (produce store_item))
                (produce store_tail))
              (consume load_head))
            (consume (some_item (omega arith))))
          (consume reload_head))
        (produce (load_tail {item = 6} (omega arith))))
      (produce (room (omega arith)))

no_loss_example :
    (race.sent ≡ race.received ++ contents race.queue) × (length (contents race.queue) ≤ 3)
no_loss_example = no_loss (omega arith) racing

no_race_example : ◌≢◌ {A = ℕ} 1 0
no_race_example = no_race {x = 6} {t = 1} {n = 2} {h = 0} (omega arith) racing refl refl
