-- ===== src/Mjpeg.antt =====
-- native-bringup/my-overrides/openmv/py_mjpeg.c: the Mjpeg object, which records images to a file. The
-- coder (imlib's mjpeg_open, mjpeg_write, mjpeg_sync, mjpeg_close) and the files are parameters.
pub mod Timing
pub mod Closing
mod Tests
use upy_android.Prelude.{
  ℕ, ◌+◌, ◌-◌, ◌/◌, ◌%◌, ◌^◌, ◌≡◌, Bool, true, false, Option, none, some, ltb, ◌||◌, if◌then◌else◌,
}
use upy_android.Prelude.Ints.{ℤ, pos, negsuc, less, is_minus_one, to_uint32}

-- `uint32_t` subtraction.
abbrev pub sub_uint32 : ℕ → ℕ → ℕ
sub_uint32 m n = (m + 2 ^ 32 - n) % 2 ^ 32

-- What `mjpeg_write` leaves, and whether it raises.
pub record Written (File : Type 0) : Type 0 where
  pub frames : ℕ
  pub bytes : ℕ
  pub fp : File
  pub raises : Bool

-- The coder over files and pictures (an image, its region and palettes). `mjpeg_write` takes the size
-- of the stream and the counts of frames and bytes, and counts the frame. `file_open` is `none`
-- where it raises.
pub record Coder (File Picture : Type 0) : Type 0 where
  pub file_open : Option File
  pub file_size : File → ℕ
  pub mjpeg_open : File → ℕ → ℕ → File
  pub mjpeg_write : File → ℕ → ℕ → ℕ → ℕ → Picture → ℤ → ℤ → ℤ → ℤ → Written File
  pub mjpeg_sync : File → ℕ → ℕ → ℕ → File
  pub mjpeg_close : File → ℕ → ℕ → ℕ → File

-- `py_mjpeg_obj_t`
pub record Mjpeg (File : Type 0) : Type 0 where
  pub frames : ℕ
  pub bytes : ℕ
  pub us_old : ℕ
  pub us_total : ℕ
  pub width : ℕ
  pub height : ℕ
  pub closed : Bool
  pub fp : File

-- How a call ends: with None, or with an exception; `raised` is one of the callee.
pub data Ending : Type 0 where
  finished os_error value_error raised : Ending

-- The arguments of `py_mjpeg_write` that are numbers.
pub record WriteArgs : Type 0 where
  pub channel : ℤ
  pub alpha : ℤ
  pub hint : ℤ
  pub quality : ℤ

module _ {File Picture : Type 0} (coder : Coder File Picture) where
  -- `py_mjpeg_size`
  pub size : Mjpeg File → ℕ
  size m = coder.file_size m.fp

  -- What follows the sanity checks of `py_mjpeg_write`, at a picture and a reading of the clock.
  pub write_picture : Mjpeg File → WriteArgs → Picture → ℕ → Ending × Mjpeg File
  write_picture m args picture ticks =
      let w =
        coder.mjpeg_write m.fp m.width m.height m.frames m.bytes picture args.quality args.channel
          args.alpha args.hint in
      if w.raises then (raised, record m { frames = w.frames; bytes = w.bytes; fp = w.fp }) else (
        finished,
        record m {
          frames = w.frames;
          bytes = w.bytes;
          fp = w.fp;
          us_total =
              if ltb 1 w.frames
              then (m.us_total + sub_uint32 ticks m.us_old) % 2 ^ 64
              else m.us_total;
          us_old = ticks;
        },
      )

  -- `py_mjpeg_write`. The picture is `none` where the conversion of an argument raises.
  pub write : Mjpeg File → WriteArgs → Option Picture → ℕ → Ending × Mjpeg File
  unfolding write_picture
  write m args picture ticks =
      if m.closed
      then (os_error, m)
      else if less args.channel (negsuc 0) || less (pos 2) args.channel
      then (value_error, m)
      else if less args.alpha (pos 0) || less (pos 255) args.alpha
      then (value_error, m)
      else if less args.quality (pos 0) || less (pos 100) args.quality
      then (value_error, m)
      else elim picture [ none ↦ (raised, m) | some p ↦ write_picture m args p ticks ]

  -- `us_avg` of `py_mjpeg_sync` and `py_mjpeg_close`
  abbrev pub us_avg : Mjpeg File → ℕ
  us_avg m = if ltb 1 m.frames then m.us_total / (m.frames - 1) % 2 ^ 32 else 0

  -- `py_mjpeg_sync`
  pub sync : Mjpeg File → Ending × Mjpeg File
  sync m =
      if m.closed
      then (os_error, m)
      else (finished, record m { fp = coder.mjpeg_sync m.fp m.frames m.bytes (us_avg m) })

  -- `py_mjpeg_close`
  pub close : Mjpeg File → Ending × Mjpeg File
  close m = if m.closed then (finished, record m { closed = true }) else (
    finished,
    record m { fp = coder.mjpeg_close m.fp m.frames m.bytes (us_avg m); closed = true },
  )

  -- `py_mjpeg_open`, with the current size of the camera; `none` where opening the file raises.
  pub open_file : ℤ → ℤ → ℤ → ℤ → Option (Mjpeg File)
  open_file cam_width cam_height arg_width arg_height =
      let width = to_uint32 (if is_minus_one arg_width then cam_width else arg_width) in
      let height = to_uint32 (if is_minus_one arg_height then cam_height else arg_height) in
      elim coder.file_open [
        | none ↦ none
        | some file ↦ some (record {
          frames = 0;
          bytes = 0;
          us_old = 0;
          us_total = 0;
          width = width;
          height = height;
          closed = false;
          fp = coder.mjpeg_open file width height;
        })
      ]
