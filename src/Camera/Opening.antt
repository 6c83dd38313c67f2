-- ===== src/Camera/Opening.antt =====
-- app/src/main/cpp/camera_module.cpp: `camera.Camera()`, which opens a camera in the place of the open one.
pub mod Keeping
use upy_android.Prelude.{
  ℕ, zero, suc, ◌+◌, ◌*◌, Bool, true, false, Option, none, some, List, ◌∷◌, ◌==◌, ◌||◌, ltb,
  if◌then◌else◌,
}
use upy_android.Prelude.Ints.{ℤ, pos, less}
use upy_android.Prelude.Words.{null, update}
use upy_android.Prelude.Raise.{
  Outcome, returned, raised, os_error, value_error, memory_error, eio, eacces,
}
use upy_android.Camera.{
  Camera, World, PixFormat, grayscale, rgb565, is_color, opened, close_impl, close_all,
  default_width, default_height,
}

-- CAMERA_BRIDGE_SLOTS and the statuses of `camera_bridge_open`
abbrev pub bridge_slots : ℕ
bridge_slots = 3

abbrev pub no_permission : ℕ
no_permission = 1

abbrev pub no_camera : ℕ
no_camera = 2

abbrev pub no_frame_rate : ℕ
no_frame_rate = 3

-- The parsed arguments; `format` is `none` at a number that is neither format.
pub record Args : Type 0 where
  pub id : Option (List ℕ)
  pub size : Option (ℤ × ℤ)
  pub format : Option PixFormat
  pub frame_rate : Option (ℤ × ℤ)

-- What `camera_bridge_open_info` fills in.
pub record Info : Type 0 where
  pub out_w : ℕ
  pub out_h : ℕ
  pub src_w : ℕ
  pub src_h : ℕ
  pub rotation : ℕ

-- The allocation of the object and the answers of the bridge, `none` where a call fails: the address of the
-- object, the status of the opening, its info, and the address of each buffer.
pub record Answers : Type 0 where
  pub new_object : Option ℕ
  pub opening : Option (List ℕ) → ℤ → ℤ → Bool → ℤ → ℤ → Option ℕ
  pub open_info : Option Info
  pub buffer : ℕ → Option ℕ

-- The bytes that a frame of the format needs.
abbrev pub frame_size : PixFormat → ℕ → ℕ → ℕ
frame_size fmt W H = W * H * (if is_color fmt then 4 else 1)

abbrev pub bad_size : Option (ℤ × ℤ) → Bool
bad_size none = false
bad_size (some (w, h)) = less w (pos 1) || less h (pos 1)

abbrev pub bad_rate : Option (ℤ × ℤ) → Bool
bad_rate none = false
bad_rate (some (lo, hi)) = less lo (pos 1) || less hi lo

abbrev pair_or : Option (ℤ × ℤ) → ℤ → ℤ → ℤ × ℤ
pair_or none a b = (a, b)
pair_or (some p) a b = p

-- `capacity` gives the size of the buffer at an address.
module _ (capacity : ℕ → ℕ) where
  -- The loop over the buffers, from `i` on; `none` where it raises.
  pub fill_slots : (ℕ → Option ℕ) → ℕ → (ℕ → ℕ) → ℕ → ℕ → Option (ℕ → ℕ)
  fill_slots buffer need slots i zero = some slots
  fill_slots buffer need slots i (suc n) = elim (buffer i) [
    | none ↦ none
    | some a ↦
        if ltb (capacity a) need then none else fill_slots buffer need (update slots i a) (i + 1) n
  ]

  -- What `camera_make_new` does after the loop over the buffers, for the camera `c` with its sizes.
  pub keep_slots : ℕ → Camera → World → Option (ℕ → ℕ) → Outcome ℕ × World
  keep_slots self c w none = (raised (os_error eio), close_impl self w)
  keep_slots self c w (some slots) =
      (returned self, record w { cameras = update w.cameras self (record c { slots = slots }) })

  -- The same from the call of `camera_bridge_open_info` on.
  pub set_up : ℕ → PixFormat → Option Info → (ℕ → Option ℕ) → World → Outcome ℕ × World
  set_up self fmt none buffer w = (raised (os_error eio), close_impl self w)
  set_up self fmt (some info) buffer w =
      let c = record (w.cameras self) {
        out_w = info.out_w;
        out_h = info.out_h;
        src_w = info.src_w;
        src_h = info.src_h;
        rotation = info.rotation;
      } in
      keep_slots self c (record w { cameras = update w.cameras self c })
        (fill_slots buffer (frame_size fmt info.src_w info.src_h) c.slots 0 bridge_slots)

  -- `camera_obj_t` as `camera_make_new` allocates it; the memory that it does not set is zero.
  abbrev pub new_camera : PixFormat → Camera
  new_camera fmt = record {
    is_open = false;
    out_w = 0;
    out_h = 0;
    src_w = 0;
    src_h = 0;
    rotation = 0;
    pixfmt = fmt;
    last_seq = 0;
    slots = λ i. null;
  }

  -- The same from the answer of `camera_bridge_open` on.
  pub opened_with : ℕ → PixFormat → Answers → Option ℕ → World → Outcome ℕ × World
  opened_with self fmt answers none w = (raised (os_error eio), w)
  opened_with self fmt answers (some status) w =
      if status == no_permission
      then (raised (os_error eacces), w)
      else if status == no_camera
      then (raised value_error, w)
      else if status == no_frame_rate
      then (raised value_error, w)
      else set_up self fmt answers.open_info answers.buffer (record {
        cameras = update w.cameras self (record (w.cameras self) { is_open = true });
        open_camera = some self;
        log = opened ∷ w.log;
      })

  -- The same from the allocation of the object on; no camera is open.
  pub open_new : Args → PixFormat → Answers → Option ℕ → World → Outcome ℕ × World
  open_new args fmt answers none w = (raised memory_error, w)
  open_new args fmt answers (some self) w =
      let (want_w, want_h) = pair_or args.size (pos default_width) (pos default_height) in
      let (fps_min, fps_max) = pair_or args.frame_rate (pos 0) (pos 0) in
      opened_with self fmt answers
        (answers.opening args.id want_w want_h (is_color fmt) fps_min fps_max)
        (record w { cameras = update w.cameras self (new_camera fmt) })

  -- The same from the check of the format on.
  pub with_format : Args → Option PixFormat → Answers → World → Outcome ℕ × World
  with_format args none answers w = (raised value_error, w)
  with_format args (some fmt) answers w = open_new args fmt answers answers.new_object (close_all w)

  -- `camera_make_new`
  pub make_new : Args → Answers → World → Outcome ℕ × World
  make_new args answers w =
      if bad_size args.size
      then (raised value_error, w)
      else if bad_rate args.frame_rate
      then (raised value_error, w)
      else with_format args args.format answers w
