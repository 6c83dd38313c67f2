-- ===== src/Camera/Tests.antt =====
-- Runs of the camera module: a camera opens, a control is started, and the camera is closed.
use upy_android.Prelude.{ℕ, ◌+◌, ◌*◌, ◌≢◌, false, none, some, arith}
use upy_android.Prelude.Ints.{pos}
use upy_android.Camera.{World, grayscale, close_all}
use upy_android.Camera.Inv.{Inv}
use upy_android.Camera.Opening.{Args, Answers, make_new}
use upy_android.Camera.Opening.Keeping.{IsMade, make_new-Inv}
use upy_android.Camera.Snapshot.{Imlib}
use upy_android.Camera.Control
use upy_android.Camera.Control.{Request, run_control, waiting}
use upy_android.Camera.Control.Waiting.{run_control_ends}
use upy_android.Camera.Control.Settled.{SettledIn, asked_of, run_control_settled}
use upy_android.Camera.Moves.{start, at_start, moved, made, all_closed, reached_Inv}

abbrev capacity : ℕ → ℕ
capacity a = 76_800

abbrev imlib : Imlib
imlib = record { image_size = λ fmt w h. w * h; pack = λ r g b. r }

abbrev args : Args
args = record { id = none; size = none; format = some grayscale; frame_rate = none }

abbrev answers : Answers
answers = record {
  new_object = some 7;
  opening = λ id w h color lo hi. some 0;
  open_info = some (record { out_w = 240; out_h = 320; src_w = 320; src_h = 240; rotation = 90 });
  buffer = λ i. some (100 + i);
}

abbrev closed_world : World
closed_world = start imlib capacity ℕ ℕ

closed_world-Inv : Inv capacity closed_world
closed_world-Inv = reached_Inv imlib capacity ℕ ℕ (at_start)

make_new-Inv_example : IsMade capacity closed_world (make_new capacity args answers closed_world)
make_new-Inv_example = make_new-Inv capacity args answers closed_world closed_world-Inv

-- The control is not confirmed; the clock is read after each round of 80 ms.
abbrev control_answers : Control.Answers ℕ ℕ
control_answers = record {
  start = λ request. some 0;
  begun = 10;
  rounds = λ k. record { wait = waiting; interrupted = false; now = 10 + 80 * (k + 1) };
}

abbrev torch : Request ℕ ℕ
torch = record { op = 0; a = 1; b = 0; n = pos 0; flags = 0 }

abbrev opened_world : World
opened_world = (make_new capacity args answers closed_world).1

run_control_ends_example : run_control ℕ ℕ 7 torch control_answers 63 opened_world ≢ none
run_control_ends_example =
    run_control_ends ℕ ℕ 7 63 torch control_answers opened_world (omega arith) (λ k. omega arith)

run_control_settled_example :
    SettledIn ℕ ℕ 7
      (asked_of ℕ ℕ 7 torch control_answers opened_world)
      opened_world
      (run_control ℕ ℕ 7 torch control_answers 63 opened_world)
run_control_settled_example = run_control_settled ℕ ℕ 7 63 torch control_answers opened_world

reached_Inv_example : Inv capacity (close_all opened_world)
reached_Inv_example =
    reached_Inv imlib capacity ℕ ℕ (moved (moved at_start (made args answers)) all_closed)
