-- ===== src/Gif.antt =====
-- native-bringup/my-overrides/openmv/py_gif.c: the Gif object, which records images to a file. The coder
-- (imlib's gif_open, gif_add_frame, gif_close) and the files are parameters.
pub mod Frames
mod Tests
use upy_android.Prelude.{
  ℕ, ◌%◌, ◌^◌, ◌≡◌, Bool, true, false, Option, none, some, ◌==◌, ◌||◌, not, if◌then◌else◌,
}
use upy_android.Prelude.Ints.{ℤ, pos, negsuc, is_minus_one, to_uint32}

-- An image, as far as this file reads it, and the rest for the coder.
pub record Picture (Rest : Type 0) : Type 0 where
  pub w : ℤ
  pub h : ℤ
  pub pixfmt : ℕ
  pub rest : Rest

-- The coder, the codes of the formats, and the files. `file_open` is `none` where it raises.
pub record Coder (File Rest : Type 0) : Type 0 where
  pub file_open : Option File
  pub file_size : File → ℕ
  pub gif_open : File → ℕ → ℕ → Bool → Bool → File
  pub gif_add_frame : File → Picture Rest → ℤ → File
  pub gif_close : File → File
  pub pixformat_jpeg : ℕ
  pub pixformat_binary : ℕ
  pub pixformat_rgb565 : ℕ
  pub pixformat_grayscale : ℕ

-- `py_gif_obj_t`
pub record Gif (File : Type 0) : Type 0 where
  pub width : ℕ
  pub height : ℕ
  pub color : Bool
  pub loop : Bool
  pub fp : File

-- How a call ends.
pub data Ending : Type 0 where
  finished os_error : Ending

-- The size and the colour that the camera is set to.
pub record Camera : Type 0 where
  pub width : ℤ
  pub height : ℤ
  pub color : Bool

module _ {File Rest : Type 0} (coder : Coder File Rest) where
  -- `py_gif_format`
  pub format : Gif File → ℕ
  format g = if g.color then coder.pixformat_rgb565 else coder.pixformat_grayscale

  -- `py_gif_size`
  pub size : Gif File → ℕ
  size g = coder.file_size g.fp

  -- `py_gif_add_frame`
  pub add_frame : Gif File → Picture Rest → ℤ → Ending × Gif File
  add_frame g image delay =
      if not (g.width == to_uint32 image.w) || not (g.height == to_uint32 image.h)
      then (os_error, g)
      else if (image.pixfmt == coder.pixformat_jpeg) || (image.pixfmt == coder.pixformat_binary)
      then (os_error, g)
      else (finished, record g { fp = coder.gif_add_frame g.fp image delay })

  -- `py_gif_close`
  pub close : Gif File → Gif File
  close g = record g { fp = coder.gif_close g.fp }

  -- `py_gif_open`. Of the arguments `color` and `loop`, which are read as Booleans, `as_bool` says what
  -- the union's Boolean member is.
  pub open_file : (ℤ → Bool) → Camera → ℤ → ℤ → ℤ → ℤ → Option (Gif File)
  open_file as_bool camera width height color loop =
      let w = to_uint32 (if is_minus_one width then camera.width else width) in
      let h = to_uint32 (if is_minus_one height then camera.height else height) in
      let c = if is_minus_one color then camera.color else as_bool color in
      elim coder.file_open [
        | none ↦ none
        | some file ↦ some (record {
          width = w;
          height = h;
          color = c;
          loop = as_bool loop;
          fp = coder.gif_open file w h c (as_bool loop);
        })
      ]
