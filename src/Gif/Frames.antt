-- ===== src/Gif/Frames.antt =====
-- Which images a Gif takes.
use upy_android.Prelude.{◌≡◌, ◌≢◌, refl, sym, ap, ◌∙◌, Bool, Option, some, arith, ◌⊎◌}
use upy_android.Prelude.Ints.{ℤ, negsuc, to_uint32}
use upy_android.Gif.{Picture, Coder, Gif, Ending, finished, os_error, Camera, add_frame, open_file}

module _ {File Rest : Type 0} (coder : Coder File Rest) where
  add_frame_fits :
      (g : Gif File) (image : Picture Rest) (delay : ℤ)
      → g.width ≡ to_uint32 image.w
      → g.height ≡ to_uint32 image.h
      → image.pixfmt ≢ coder.pixformat_jpeg
      → image.pixfmt ≢ coder.pixformat_binary
      → add_frame coder g image delay
        ≡ (finished, record g { fp = coder.gif_add_frame g.fp image delay })
  unfolding add_frame
  add_frame_fits g image delay w h j b = ground arith

  -- An image that is refused leaves the Gif and its file as they were; an image that is taken has the
  -- size of the Gif and is neither JPEG nor binary.
  pub refused_or_fits :
      (g : Gif File) (image : Picture Rest) (delay : ℤ)
      → let r = add_frame coder g image delay in
        ((r.0 ≡ os_error) × (r.1 ≡ g))
        ⊎ ((r.0 ≡ finished)
            × (g.width ≡ to_uint32 image.w)
            × (g.height ≡ to_uint32 image.h)
            × (image.pixfmt ≢ coder.pixformat_jpeg)
            × (image.pixfmt ≢ coder.pixformat_binary))
  unfolding add_frame
  refused_or_fits g image delay = ground arith

  opened_size :
      (as_bool : ℤ → Bool) (camera : Camera) (color loop : ℤ) (g : Gif File) (file : Option File)
      → coder.file_open ≡ file
      → open_file coder as_bool camera (negsuc 0) (negsuc 0) color loop ≡ some g
      → (g.width ≡ to_uint32 camera.width) × (g.height ≡ to_uint32 camera.height)
  unfolding open_file
  opened_size as_bool camera color loop g file e opened = ground (arith, e, opened)

  -- A Gif opened without a size takes every image of the camera's size that is neither JPEG nor
  -- binary, when its file opens.
  default_size_fits :
      (as_bool : ℤ → Bool) (camera : Camera) (color loop : ℤ) (g : Gif File) (image : Picture Rest)
      (delay : ℤ)
      → open_file coder as_bool camera (negsuc 0) (negsuc 0) color loop ≡ some g
      → image.w ≡ camera.width
      → image.h ≡ camera.height
      → image.pixfmt ≢ coder.pixformat_jpeg
      → image.pixfmt ≢ coder.pixformat_binary
      → (add_frame coder g image delay).0 ≡ finished
  default_size_fits as_bool camera color loop g image delay opened w h j b =
      let size = opened_size as_bool camera color loop g coder.file_open refl opened in
      ap (λ (r : Ending × Gif File). r.0)
        (add_frame_fits g image delay (size.0 ∙ ap to_uint32 (sym w))
          (size.1 ∙ ap to_uint32 (sym h)) j b)
