-- ===== src/Camera/Control/Methods.antt =====
-- app/src/main/cpp/camera_module.cpp: one method for each CameraX control.
use upy_android.Prelude.{ℕ, ◌+◌, Bool, Option, none, some, ◌==◌, not, if◌then◌else◌}
use upy_android.Prelude.Ints.{ℤ, pos}
use upy_android.Prelude.Raise.{Outcome, returned, raised, value_error}
use upy_android.Camera.{World}
use upy_android.Camera.Control.{Request, Answers, run_control}

-- CAMERA_BRIDGE_OP_*
abbrev op_torch : ℕ
op_torch = 0

abbrev op_torch_strength : ℕ
op_torch_strength = 1

abbrev op_low_light : ℕ
op_low_light = 2

abbrev op_zoom_ratio : ℕ
op_zoom_ratio = 3

abbrev op_linear_zoom : ℕ
op_linear_zoom = 4

abbrev op_exposure : ℕ
op_exposure = 5

abbrev op_focus : ℕ
op_focus = 6

abbrev op_cancel_focus : ℕ
op_cancel_focus = 7

-- What the methods use of C's floating-point numbers; `to_int` is the cast of a double to `mp_int_t`.
pub record Floats (Float Double : Type 0) : Type 0 where
  pub zero_f : Float
  pub one_f : Float
  pub zero_d : Double
  pub is_zero : Double → Bool
  pub to_int : Double → ℤ

-- What follows `run_control`.
abbrev pub then_return :
    {A B : Type 0} → (A → B) → Option (Outcome A × World) → Option (Outcome B × World)
then_return f none = none
then_return f (some (returned a, w)) = some (returned (f a), w)
then_return f (some (raised e, w)) = some (raised e, w)

module _ {Float Double : Type 0} (floats : Floats Float Double) where
  -- `run_control` of a method that returns None.
  control :
      ℕ
      → Request Float Double
      → Answers Float Double
      → ℕ
      → World
      → Option (Outcome (Unit {0}) × World)
  unfolding run_control
  control self request answers fuel w =
      then_return (λ v. tt) (run_control Float Double self request answers fuel w)

  abbrev request : ℕ → Float → ℤ → Request Float Double
  request op a n = record { op = op; a = a; b = floats.zero_f; n = n; flags = 0 }

  abbrev switch : Bool → Float
  switch on = if on then floats.one_f else floats.zero_f

  -- `camera_enable_torch`
  pub enable_torch :
      ℕ → Bool → Answers Float Double → ℕ → World → Option (Outcome (Unit {0}) × World)
  unfolding control
  enable_torch self on = control self (request op_torch (switch on) (pos 0))

  -- `camera_set_torch_strength_level`
  pub set_torch_strength_level :
      ℕ → ℤ → Answers Float Double → ℕ → World → Option (Outcome (Unit {0}) × World)
  unfolding control
  set_torch_strength_level self level = control self (request op_torch_strength floats.zero_f level)

  -- `camera_enable_low_light_boost`
  pub enable_low_light_boost :
      ℕ → Bool → Answers Float Double → ℕ → World → Option (Outcome (Unit {0}) × World)
  unfolding control
  enable_low_light_boost self on = control self (request op_low_light (switch on) (pos 0))

  -- `camera_set_zoom_ratio`
  pub set_zoom_ratio :
      ℕ → Float → Answers Float Double → ℕ → World → Option (Outcome (Unit {0}) × World)
  unfolding control
  set_zoom_ratio self ratio = control self (request op_zoom_ratio ratio (pos 0))

  -- `camera_set_linear_zoom`
  pub set_linear_zoom :
      ℕ → Float → Answers Float Double → ℕ → World → Option (Outcome (Unit {0}) × World)
  unfolding control
  set_linear_zoom self zoom = control self (request op_linear_zoom zoom (pos 0))

  -- `camera_set_exposure_compensation_index`
  pub set_exposure_compensation_index :
      ℕ → ℤ → Answers Float Double → ℕ → World → Option (Outcome ℤ × World)
  unfolding run_control
  set_exposure_compensation_index self index answers fuel w =
      then_return floats.to_int
        (run_control Float Double self (request op_exposure floats.zero_f index) answers fuel w)

  abbrev pub focus_flags : Bool → Bool → Bool → ℕ
  focus_flags af ae awb = (if af then 1 else 0) + (if ae then 2 else 0) + (if awb then 4 else 0)

  -- The parsed arguments of `camera_start_focus_and_metering`.
  pub record Focus : Type 0 where
    pub x : Float
    pub y : Float
    pub auto_cancel_ms : ℤ
    pub af : Bool
    pub ae : Bool
    pub awb : Bool

  -- `camera_start_focus_and_metering`
  pub start_focus_and_metering :
      ℕ → Focus → Answers Float Double → ℕ → World → Option (Outcome Bool × World)
  unfolding run_control
  start_focus_and_metering self focus answers fuel w =
      let flags = focus_flags focus.af focus.ae focus.awb in
      if flags == 0
      then some (raised value_error, w)
      else (then_return (λ ok. not (floats.is_zero ok))
          (run_control Float Double self
            (record {
              op = op_focus;
              a = focus.x;
              b = focus.y;
              n = focus.auto_cancel_ms;
              flags = flags;
            })
            answers fuel w))

  -- `camera_cancel_focus_and_metering`
  pub cancel_focus_and_metering :
      ℕ → Answers Float Double → ℕ → World → Option (Outcome (Unit {0}) × World)
  unfolding control
  cancel_focus_and_metering self = control self (request op_cancel_focus floats.zero_f (pos 0))
