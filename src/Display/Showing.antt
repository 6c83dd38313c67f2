-- ===== src/Display/Showing.antt =====
-- The frame that is posted shows the picture: each pixel as a square of its colour, the rest black.
use upy_android.Prelude.{ℕ, ◌+◌, ◌*◌, ◌≤◌, ◌<◌, ◌≡◌, ◌≢◌, Option, none, some}
use upy_android.Display.{
  Display, Image, Hint, Buffer, PixFormat, Colors, Geometry, color, logical_w, logical_h,
  read_pixel,
}
use upy_android.Display.Scaling.{Inside}
use upy_android.Display.Drawing.{IsWhole}

-- The colour of a pixel that is read.
abbrev pub shade_of : Colors → PixFormat → Option ℕ → ℕ
shade_of colors f none = 0
shade_of colors f (some p) = color colors f p

abbrev shade : Colors → Display → Image → Hint → ℕ → ℕ → ℕ → ℕ
shade colors self src hint step ox oy =
    shade_of colors src.pixfmt (read_pixel src hint self (ox * step) (oy * step))

-- A frame that shows a picture: the pixel at each step as a square of its colour, and black elsewhere.
pub record Shows (buffer : Buffer) (g : Geometry) (f : ℕ → ℕ → ℕ) (bits : ℕ → ℕ) : Type 0 where
  pub shown :
      (ox oy dx dy : ℕ)
      → ox < g.out_w
      → oy < g.out_h
      → dx < g.factor
      → dy < g.factor
      → bits ((g.off_y + oy * g.factor + dy) * buffer.stride + (g.off_x + ox * g.factor) + dx)
        ≡ f ox oy
  pub black :
      (i : ℕ)
      → ((ox oy dx dy : ℕ)
          → ox < g.out_w
          → oy < g.out_h
          → dx < g.factor
          → dy < g.factor
          → (g.off_y + oy * g.factor + dy) * buffer.stride + (g.off_x + ox * g.factor) + dx ≢ i)
      → bits i ≡ 0

module _ (colors : Colors) (self : Display) (src : Image) (hint : Hint) (whole : IsWhole src)
    (buffer : Buffer) (stride : buffer.width ≤ buffer.stride) where
  module _ (g : Geometry) (inside : Inside (logical_w src hint) (logical_h src hint) buffer g) where
    abbrev w : ℕ
    w = logical_w src hint

    abbrev h : ℕ
    h = logical_h src hint

    abbrev tone : ℕ → ℕ → ℕ
    tone = shade colors self src hint g.step
