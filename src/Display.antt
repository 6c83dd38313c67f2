-- ===== src/Display.antt =====
-- app/src/main/cpp/display_module.cpp: what a script draws on the Surface of the app. Android's window is a
-- parameter: whether it can be locked, and the buffer that it gives.
pub mod Scaling
pub mod Drawing
pub mod Painting
pub mod Squares
pub mod Pictures
pub mod Showing
pub mod Windows
mod Tests
use upy_android.Prelude.{
  ℕ, zero, suc, ◌+◌, ◌-◌, ◌*◌, ◌/◌, ◌%◌, Bool, true, false, Option, none, some, List, [], ◌∷◌, ◌&&◌,
  ◌||◌, not, if◌then◌else◌, ltb, leb, get_elem?,
}
use upy_android.Prelude.Words.{update}
use upy_android.Prelude.Raise.{Outcome, returned, raised, value_error}

-- `display_obj_t`
pub record Display : Type 0 where
  pub vflip : Bool
  pub hmirror : Bool

pub data PixFormat : Type 0 where
  grayscale rgb565 other_format : PixFormat

-- `image_t`: its pixels row by row.
pub record Image : Type 0 where
  pub w : ℕ
  pub h : ℕ
  pub pixfmt : PixFormat
  pub pixels : List ℕ

-- The bits of `hint` that are used.
pub record Hint : Type 0 where
  pub transpose : Bool
  pub hmirror : Bool
  pub vflip : Bool

-- `ANativeWindow_Buffer`; `bits` has `stride * height` words.
pub record Buffer : Type 0 where
  pub width : ℕ
  pub height : ℕ
  pub stride : ℕ
  pub bits : ℕ → ℕ

-- The loop of `upscale_factor` over the candidates that are left.
pub upscale_loop : ℕ → ℕ → ℕ → ℕ → ℕ → List ℕ → ℕ
upscale_loop src_w src_h buf_w buf_h factor [] = factor
upscale_loop src_w src_h buf_w buf_h factor (c ∷ cs) =
    upscale_loop src_w src_h buf_w buf_h
      (if leb (src_w * c) buf_w && leb (src_h * c) buf_h then c else factor) cs

-- `upscale_factor`
pub upscale_factor : ℕ → ℕ → ℕ → ℕ → ℕ
unfolding upscale_loop
upscale_factor src_w src_h buf_w buf_h = upscale_loop src_w src_h buf_w buf_h 1 (2 ∷ 4 ∷ 8 ∷ [])

-- The loop that doubles `step`; `none` where the fuel is used up.
pub find_step : ℕ → ℕ → ℕ → Buffer → ℕ → Option ℕ
find_step zero logical_w logical_h buffer step = none
find_step (suc fuel) logical_w logical_h buffer step =
    let rest = find_step fuel logical_w logical_h buffer (step * 2) in
    if ltb (buffer.width * step) logical_w || ltb (buffer.height * step) logical_h
    then rest
    else some step

-- `n - 1 - i`, where that is an index below `n`.
abbrev pub mirror : Bool → ℕ → ℕ → Option ℕ
mirror false n i = some i
mirror true n i = if ltb i n then some (n - 1 - i) else none

-- `IMAGE_GET_RGB565_PIXEL` and `IMAGE_GET_GRAYSCALE_PIXEL`; `none` outside the image.
abbrev pub get_pixel : Image → ℕ → ℕ → Option ℕ
get_pixel src x y =
    if ltb x src.w && ltb y src.h then get_elem? src.pixels (y * src.w + x) else none

-- A write of a word; `none` outside the buffer.
abbrev pub store : ℕ → ℕ → (ℕ → ℕ) → ℕ → Option (ℕ → ℕ)
store size v bits i = if ltb i size then some (update bits i v) else none

module _ {S T : Type 0} where
  abbrev pub go_on : (S → Option T) → Option S → Option T
  go_on k none = none
  go_on k (some s) = k s

module _ {S : Type 0} where
  -- A loop from `i` on, for `n` rounds.
  pub for : (ℕ → S → Option S) → ℕ → ℕ → S → Option S
  for body i zero s = some s
  for body i (suc n) s = go_on (for body (i + 1) n) (body i s)

-- Where the picture is drawn.
pub record Geometry : Type 0 where
  pub step : ℕ
  pub out_w : ℕ
  pub out_h : ℕ
  pub factor : ℕ
  pub off_x : ℕ
  pub off_y : ℕ

-- The geometry for a step.
pub geometry : ℕ → ℕ → Buffer → ℕ → Geometry
unfolding upscale_factor
geometry logical_w logical_h buffer step =
    let out_w = logical_w / step in
    let out_h = logical_h / step in
    let factor = upscale_factor out_w out_h buffer.width buffer.height in
    record {
      step = step;
      out_w = out_w;
      out_h = out_h;
      factor = factor;
      off_x = (buffer.width - out_w * factor) / 2;
      off_y = (buffer.height - out_h * factor) / 2;
    }

-- The square of words for one pixel.
module _ (buffer : Buffer) (g : Geometry) where
  abbrev pub word_at : ℕ → ℕ → ℕ → ℕ → ℕ
  word_at ox oy dx dy =
      (g.off_y + oy * g.factor + dy) * buffer.stride + (g.off_x + ox * g.factor) + dx

  pub draw_square : ℕ → ℕ → ℕ → (ℕ → ℕ) → Option (ℕ → ℕ)
  unfolding for
  draw_square v ox oy =
      for
        (λ dy.
          for (λ dx bits. store (buffer.stride * buffer.height) v bits (word_at ox oy dx dy)) 0
            g.factor)
        0 g.factor

-- How `write` ends: with the frame that it posts, or without one.
pub data Shown : Type 0 where
  posted : (ℕ → ℕ) → Shown
  not_shown : Shown

module _ (src : Image) (hint : Hint) where
  abbrev pub logical_w : ℕ
  logical_w = if hint.transpose then src.h else src.w

  abbrev pub logical_h : ℕ
  logical_h = if hint.transpose then src.w else src.h

  -- Where a pixel of the picture is read, for `hx` and `hy`.
  abbrev pub read_hint : ℕ → ℕ → Option ℕ
  read_hint hx hy =
      if hint.transpose
      then go_on (λ x. go_on (λ y. get_pixel src x y) (mirror hint.hmirror src.h hx))
          (mirror hint.vflip src.w hy)
      else go_on (λ x. go_on (λ y. get_pixel src x y) (mirror hint.vflip src.h hy))
          (mirror hint.hmirror src.w hx)

  -- The pixel for a place in the picture.
  pub read_pixel : Display → ℕ → ℕ → Option ℕ
  read_pixel self lx ly =
      go_on (λ hx. go_on (λ hy. read_hint hx hy) (mirror self.vflip logical_h ly))
        (mirror self.hmirror logical_w lx)

-- The colours of a pixel of RGB565: the macros `COLOR_RGB565_TO_R8` and so on.
pub record Colors : Type 0 where
  pub to_r8 : ℕ → ℕ
  pub to_g8 : ℕ → ℕ
  pub to_b8 : ℕ → ℕ

-- `0xFF000000 | b << 16 | g << 8 | r` for bytes
abbrev pub rgba : ℕ → ℕ → ℕ → ℕ
rgba r g b = 0xFF000000 + b % 256 * 65536 + g % 256 * 256 + r % 256

module _ (colors : Colors) where
  abbrev pub color : PixFormat → ℕ → ℕ
  color rgb565 p = rgba (colors.to_r8 p) (colors.to_g8 p) (colors.to_b8 p)
  color grayscale p = rgba p p p
  color other_format p = rgba p p p

  module _ (self : Display) (src : Image) (hint : Hint) where
    -- The loop over a row.
    pub draw_row : Buffer → Geometry → ℕ → (ℕ → ℕ) → Option (ℕ → ℕ)
    unfolding for read_pixel
    draw_row buffer g oy =
        for
          (λ ox bits.
            go_on (λ p. draw_square buffer g (color src.pixfmt p) ox oy bits)
              (read_pixel src hint self (ox * g.step) (oy * g.step)))
          0 g.out_w

    -- The loop over the rows, from a black buffer.
    pub draw : Buffer → Geometry → Option (ℕ → ℕ)
    unfolding for
    draw buffer g = for (λ oy. draw_row buffer g oy) 0 g.out_h (λ i. 0)

    abbrev pub post : Option (ℕ → ℕ) → Option (Outcome Shown)
    post none = none
    post (some bits) = some (returned (posted bits))

    -- The drawing for the step that was found.
    abbrev pub draw_with : Buffer → Option ℕ → Option (Outcome Shown)
    draw_with buffer none = none
    draw_with buffer (some step) =
        post (draw buffer (geometry (logical_w src hint) (logical_h src hint) buffer step))

    abbrev pub is_other : PixFormat → Bool
    is_other grayscale = false
    is_other rgb565 = false
    is_other other_format = true

    -- The window that is there, and the buffer that it gives when it can be locked.
    abbrev pub on_window : ℕ → Option (Option Buffer) → Option (Outcome Shown)
    on_window fuel none = some (returned not_shown)
    on_window fuel (some none) = some (returned not_shown)
    on_window fuel (some (some buffer)) =
        draw_with buffer (find_step fuel (logical_w src hint) (logical_h src hint) buffer 1)

    -- `display_write`; `none` stands for a read or a write out of bounds, or for fuel that is used up.
    pub write : ℕ → Option (Option Buffer) → Option (Outcome Shown)
    unfolding find_step draw geometry
    write fuel window =
        if is_other src.pixfmt then some (raised value_error) else on_window fuel window
