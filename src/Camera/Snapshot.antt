-- ===== src/Camera/Snapshot.antt =====
-- app/src/main/cpp/camera_module.cpp: `snapshot`, which waits for a frame and copies it upright.
pub mod Frames
pub mod Keeping
mod Tests
use upy_android.Prelude.{
  ℕ, zero, suc, ◌+◌, ◌-◌, ◌*◌, ◌/◌, Bool, true, false, Option, none, some, List, ◌∷◌, ◌==◌, ◌||◌,
  not, leb, if◌then◌else◌,
}
use upy_android.Prelude.Words.{update}
use upy_android.Prelude.Raise.{
  Outcome, returned, raised, Exn, os_error, memory_error, pending, einval, eio, etimedout, no_errno,
}
use upy_android.Camera.{Camera, World, PixFormat, grayscale, rgb565, acquired, released, close_impl}
use upy_android.Camera.Rotate.{rotate_gray, rotate_rgba_to_rgb565}

abbrev pub first_frame_timeout_ms : ℕ
first_frame_timeout_ms = 5000

abbrev pub frame_timeout_ms : ℕ
frame_timeout_ms = 2000

abbrev pub tf_alignment : ℕ
tf_alignment = 64

-- `camera_frame_t`
pub record Frame : Type 0 where
  pub slot : ℕ
  pub width : ℕ
  pub height : ℕ
  pub rotation_degrees : ℕ
  pub seq : ℕ

-- How `camera_bridge_acquire` ends: it fails, has no frame yet, or holds one.
pub data Acquire : Type 0 where
  lost no_frame : Acquire
  frame : Frame → Acquire

-- One round of the loop: the answer for the frames after a number, whether `mp_handle_pending` raises, and
-- the clock at the end of it.
pub record Round : Type 0 where
  pub acquire : ℕ → Acquire
  pub interrupted : Bool
  pub now : ℕ

-- What imlib says of images: their size in bytes, and COLOR_R8_G8_B8_TO_RGB565.
pub record Imlib : Type 0 where
  pub image_size : PixFormat → ℕ → ℕ → ℕ
  pub pack : ℕ → ℕ → ℕ → ℕ

-- An image: its block, where its pixels start, and the pixels; `none` after a read outside the frame.
pub record Image : Type 0 where
  pub w : ℕ
  pub h : ℕ
  pub pixfmt : PixFormat
  pub raw : ℕ
  pub data_at : ℕ
  pub pixels : Option (List ℕ)

-- What `image_alloc_tf_aligned` asks `m_malloc` for, and where in the block the pixels start.
abbrev pub block_size : ℕ → ℕ
block_size size = (size + tf_alignment - 1) / tf_alignment * tf_alignment + tf_alignment - 1

abbrev pub align : ℕ → ℕ
align raw = (raw + tf_alignment - 1) / tf_alignment * tf_alignment

-- How the wait for a frame ends.
pub data Waited : Type 0 where
  got : Frame → Waited
  gave_up : Exn → Waited
  bridge_failed : Waited

-- The loop, from round `k` on; `none` when the fuel is used up.
pub wait_frame : (ℕ → Round) → ℕ → ℕ → ℕ → ℕ → Option Waited
wait_frame rounds last_seq deadline k zero = none
wait_frame rounds last_seq deadline k (suc n) =
    let rest = wait_frame rounds last_seq deadline (k + 1) n in
    elim ((rounds k).acquire last_seq) [
      | lost ↦ some bridge_failed
      | frame f ↦ some (got f)
      | no_frame ↦
          if (rounds k).interrupted
          then some (gave_up pending)
          else if leb deadline (rounds k).now
          then some (gave_up (os_error etimedout))
          else rest
    ]

-- The frame is not one that the camera was opened for.
abbrev pub unexpected : Camera → Frame → Bool
unexpected c f =
    not (f.width == c.src_w)
    || (not (f.height == c.src_h) || not (f.rotation_degrees == c.rotation))

-- The copy of a frame, whose bytes are `src`.
abbrev pub copy_pixels : Imlib → Camera → List ℕ → Option (List ℕ)
copy_pixels imlib c src = elim c.pixfmt [
  | rgb565 ↦ rotate_rgba_to_rgb565 imlib.pack src c.src_w c.src_h c.rotation
  | grayscale ↦ rotate_gray src c.src_w c.src_h c.rotation
]

-- What `m_malloc` gives for a size (`none` where it raises), the clock at the start, the rounds, and the
-- contents of the buffer at each address while a frame is held.
pub record Answers : Type 0 where
  pub malloc : ℕ → Option ℕ
  pub start : ℕ
  pub rounds : ℕ → Round
  pub memory : ℕ → List ℕ

module _ (imlib : Imlib) where
  -- What follows the wait of `camera_snapshot`, with the block of the image at `raw`.
  pub take_frame : ℕ → (ℕ → List ℕ) → ℕ → Waited → World → Outcome Image × World
  take_frame self memory raw bridge_failed w = (raised (os_error eio), close_impl self w)
  take_frame self memory raw (gave_up e) w = (raised e, w)
  take_frame self memory raw (got f) w =
      let c = w.cameras self in
      let w1 = record w { log = released ∷ acquired ∷ w.log } in
      if unexpected c f then (raised (os_error no_errno), w1) else (
        returned (record {
          w = c.out_w;
          h = c.out_h;
          pixfmt = c.pixfmt;
          raw = raw;
          data_at = align raw;
          pixels = copy_pixels imlib c (memory (c.slots f.slot));
        }),
        record w1 { cameras = update w.cameras self (record c { last_seq = f.seq }) },
      )

  abbrev pub budget : Camera → ℕ
  budget c = if c.last_seq == 0 then first_frame_timeout_ms else frame_timeout_ms

  abbrev finish : ℕ → (ℕ → List ℕ) → ℕ → World → Option Waited → Option (Outcome Image × World)
  finish self memory raw w none = none
  finish self memory raw w (some waited) = some (take_frame self memory raw waited w)

  -- `camera_snapshot` with the block that `m_malloc` gives.
  pub with_block : ℕ → Answers → ℕ → World → Option ℕ → Option (Outcome Image × World)
  with_block self answers fuel w none = some (raised memory_error, w)
  with_block self answers fuel w (some raw) =
      let c = w.cameras self in
      finish self answers.memory raw w
        (wait_frame answers.rounds c.last_seq (answers.start + budget c) 0 fuel)

  -- `camera_snapshot`; `none` when the fuel is used up.
  pub snapshot : ℕ → Answers → ℕ → World → Option (Outcome Image × World)
  snapshot self answers fuel w =
      let c = w.cameras self in
      if c.is_open
      then with_block self answers fuel w
          (answers.malloc (block_size (imlib.image_size c.pixfmt c.out_w c.out_h)))
      else some (raised (os_error einval), w)
