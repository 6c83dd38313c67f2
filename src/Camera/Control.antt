-- ===== src/Camera/Control.antt =====
-- app/src/main/cpp/camera_module.cpp: the CameraControl methods, which wait until CameraX confirms.
pub mod Waiting
pub mod Settled
pub mod Methods
use upy_android.Prelude.{
  ℕ, zero, suc, ◌+◌, Bool, true, false, Option, none, some, List, ◌∷◌, ◌==◌, not, leb,
  if◌then◌else◌,
}
use upy_android.Prelude.Ints.{ℤ, pos}
use upy_android.Prelude.Raise.{
  Outcome, returned, raised, Exn, os_error, value_error, pending, einval, eio, etimedout, enodev,
}
use upy_android.Camera.{World, started, abandoned, close_impl}

abbrev pub control_timeout_ms : ℕ
control_timeout_ms = 5000

-- CAMERA_BRIDGE_ERR_*
abbrev pub err_value : ℕ
err_value = 1

abbrev pub err_unsupported : ℕ
err_unsupported = 2

abbrev pub err_lost : ℕ
err_lost = 4

-- `raise_kind`
abbrev pub raise_kind : ℕ → Exn
raise_kind kind =
    if kind == err_value
    then value_error
    else os_error (if kind == err_unsupported then enodev else eio)

-- `Float` and `Double` stand for C's floating-point numbers.
module _ (Float Double : Type 0) where
  -- The arguments of `camera_bridge_control_start`.
  pub record Request : Type 0 where
    pub op : ℕ
    pub a : Float
    pub b : Float
    pub n : ℤ
    pub flags : ℕ

  -- How `camera_bridge_control_wait` ends: it fails, or the control is not done, or done with an error
  -- kind and a value.
  pub data Wait : Type 0 where
    wait_failed waiting : Wait
    done : ℕ → Double → Wait

  pub record Round : Type 0 where
    pub wait : Wait
    pub interrupted : Bool
    pub now : ℕ

  -- `start` gives the error kind of `camera_bridge_control_start`, `none` where it fails.
  pub record Answers : Type 0 where
    pub start : Request → Option ℕ
    pub begun : ℕ
    pub rounds : ℕ → Round

  abbrev pub abandon : World → World
  abandon w = record w { log = abandoned ∷ w.log }

  -- The body of the loop of `run_control` at what a round brings; `rest` is what follows it.
  pub after_wait :
      ℕ
      → World
      → Wait
      → Bool
      → ℕ
      → Option (Outcome Double × World)
      → Option (Outcome Double × World)
  after_wait deadline w wait_failed interrupted now rest = some (raised (os_error eio), w)
  after_wait deadline w (done kind value) interrupted now rest =
      some (if kind == 0 then returned value else raised (raise_kind kind), w)
  after_wait deadline w waiting interrupted now rest =
      if interrupted
      then some (raised pending, abandon w)
      else if leb deadline now
      then some (raised (os_error etimedout), abandon w)
      else rest

  -- The loop, from round `k` on; `none` when the fuel is used up.
  pub control_loop : (ℕ → Round) → ℕ → ℕ → ℕ → World → Option (Outcome Double × World)
  control_loop rounds deadline k zero w = none
  control_loop rounds deadline k (suc n) w =
      let rest = control_loop rounds deadline (k + 1) n w in
      after_wait deadline w (rounds k).wait (rounds k).interrupted (rounds k).now rest

  -- `run_control` from the answer of `camera_bridge_control_start` on.
  pub start_with : ℕ → Answers → ℕ → World → Option ℕ → Option (Outcome Double × World)
  start_with self answers fuel w none = some (raised (os_error eio), w)
  start_with self answers fuel w (some kind) =
      let w1 = if kind == err_lost then close_impl self w else w in
      if kind == 0
      then (control_loop answers.rounds (answers.begun + control_timeout_ms) 0 fuel
          (record w1 { log = started ∷ w1.log }))
      else some (raised (raise_kind kind), w1)

  -- `run_control`
  pub run_control : ℕ → Request → Answers → ℕ → World → Option (Outcome Double × World)
  run_control self request answers fuel w =
      if (w.cameras self).is_open
      then start_with self answers fuel w (answers.start request)
      else some (raised (os_error einval), w)
