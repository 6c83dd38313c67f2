-- ===== src/Camera.antt =====
-- app/src/main/cpp/camera_module.cpp: the camera module, which gives a script the frames of the phone's
-- camera. CameraX stands behind camera_jni_bridge.h: its answers are arguments of the operations, and
-- `log` holds what they ask it to do, the latest first.
pub mod Rotate
pub mod Opening
pub mod Snapshot
pub mod Control
pub mod Info
pub mod Inv
pub mod Moves
mod Tests
use upy_android.Prelude.{ℕ, Bool, true, false, Option, none, some, List, ◌∷◌, ◌==◌, if◌then◌else◌}
use upy_android.Prelude.Words.{null, update}
use upy_android.Prelude.Raise.{Outcome, returned, raised, os_error, einval}

-- The pixel formats of the module.
pub data PixFormat : Type 0 where
  grayscale rgb565 : PixFormat

-- `camera_obj_t`; `slots` are the addresses of CameraX's buffers.
pub record Camera : Type 0 where
  pub is_open : Bool
  pub out_w : ℕ
  pub out_h : ℕ
  pub src_w : ℕ
  pub src_h : ℕ
  pub rotation : ℕ
  pub pixfmt : PixFormat
  pub last_seq : ℕ
  pub slots : ℕ → ℕ

-- What the module has CameraX do: open and close the camera, hold a frame and release it, start a control
-- and give up on it.
pub data Event : Type 0 where
  opened closed acquired released started abandoned : Event

-- The objects by their addresses, and `g_open_camera`.
pub record World : Type 0 where
  pub cameras : ℕ → Camera
  pub open_camera : Option ℕ
  pub log : List Event

abbrev pub points_to : Option ℕ → ℕ → Bool
points_to none self = false
points_to (some other) self = other == self

-- `close_impl`
pub close_impl : ℕ → World → World
close_impl self w =
    if (w.cameras self).is_open
    then record {
      cameras =
          update w.cameras self (record (w.cameras self) { is_open = false; slots = λ i. null });
      open_camera = if points_to w.open_camera self then none else w.open_camera;
      log = closed ∷ w.log;
    }
    else w

-- `camera_close`, which is also the finaliser, and `camera_exit`
pub close : ℕ → World → Outcome (Unit {0}) × World
unfolding close_impl
close self w = (returned tt, close_impl self w)

-- `camera_enter`
pub enter : ℕ → World → Outcome ℕ × World
enter self w = (returned self, w)

-- `camera_size`
pub size : ℕ → World → Outcome (ℕ × ℕ) × World
size self w =
    if (w.cameras self).is_open
    then (returned ((w.cameras self).out_w, (w.cameras self).out_h), w)
    else (raised (os_error einval), w)

pub close_found : Option ℕ → World → World
unfolding close_impl
close_found none w = w
close_found (some self) w = close_impl self w

-- `camera_close_all`
pub close_all : World → World
unfolding close_found
close_all w = close_found w.open_camera w

abbrev pub is_color : PixFormat → Bool
is_color grayscale = false
is_color rgb565 = true

abbrev pub default_width : ℕ
default_width = 320

abbrev pub default_height : ℕ
default_height = 240

-- `camera_get_current_size`: width, height and whether the format is RGB565.
pub get_current_size : World → ℕ × (ℕ × Bool)
get_current_size w = elim w.open_camera [
  | none ↦ (default_width, (default_height, false))
  | some i ↦ ((w.cameras i).out_w, ((w.cameras i).out_h, is_color (w.cameras i).pixfmt))
]
