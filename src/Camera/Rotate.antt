-- ===== src/Camera/Rotate.antt =====
-- app/src/main/cpp/camera_module.cpp: the rotation of a frame while it is copied. A read outside the
-- source is `none`.
pub mod Turning
pub mod Upright
mod Tests
use upy_android.Prelude.{
  ℕ, zero, suc, ◌+◌, ◌*◌, ◌%◌, Option, none, some, List, [], ◌∷◌, ◌++◌, ◌==◌, leb, if◌then◌else◌,
  length, get_elem?, take,
}
use upy_android.Prelude.Ints.{ℤ, pos, negsuc, sub_ℕ, neg, ◌+ℤ◌, ◌*ℤ◌}

-- `src_start`: where the row `oy` of the result starts in a frame of `W` × `H` pixels.
abbrev pub src_start : ℕ → ℕ → ℕ → ℕ → ℤ
src_start rot W H oy =
    if rot == 90
    then sub_ℕ H 1 *ℤ W +ℤ pos oy
    else if rot == 180
    then sub_ℕ H (1 + oy) *ℤ W +ℤ sub_ℕ W 1
    else if rot == 270
    then sub_ℕ W (1 + oy)
    else pos (oy * W)

-- `src_step`: from one pixel of the row to the next.
abbrev pub src_step : ℕ → ℕ → ℤ
src_step rot W =
    if rot == 90 then neg W else if rot == 180 then neg 1 else if rot == 270 then pos W else pos 1

infixl 5 ◌>>=◌
abbrev ◌>>=◌ : {A B : Type 0} → Option A → (A → Option B) → Option B
none >>= f = none
some a >>= f = f a

-- The loop over `ox`: `n` pixels from `i` on.
pub row : (ℤ → Option ℕ) → ℤ → ℤ → ℕ → Option (List ℕ)
row read i step zero = some []
row read i step (suc n) = do p ← read i; ps ← row read (i +ℤ step) step n; some (p ∷ ps)

-- The loop over `oy`: `n` rows of `out_w` pixels from the row `oy` on.
pub rows : (ℤ → Option ℕ) → ℕ → ℕ → ℕ → ℕ → ℕ → ℕ → Option (List ℕ)
rows read W H rot out_w oy zero = some []
rows read W H rot out_w oy (suc n) = do
  r ← row read (src_start rot W H oy) (src_step rot W) out_w
  rs ← rows read W H rot out_w (oy + 1) n
  some (r ++ rs)

-- `src[i]`
abbrev pub at : List ℕ → ℤ → Option ℕ
at src (pos n) = get_elem? src n
at src (negsuc n) = none

-- `rotate_gray`
pub rotate_gray : List ℕ → ℕ → ℕ → ℕ → Option (List ℕ)
rotate_gray src W H rot =
    if rot == 0
    then (if leb (W * H) (length src) then some (take (W * H) src) else none)
    else (rows (at src) W H rot (if rot == 180 then W else H) 0 (if rot == 180 then H else W))

-- The pixel of `rotate_rgba_to_rgb565` at `i`; `pack` is imlib's COLOR_R8_G8_B8_TO_RGB565.
abbrev pub rgba_at : (ℕ → ℕ → ℕ → ℕ) → List ℕ → ℤ → Option ℕ
rgba_at pack src (pos n) = do
  r ← get_elem? src (4 * n)
  g ← get_elem? src (4 * n + 1)
  b ← get_elem? src (4 * n + 2)
  some (pack r g b)
rgba_at pack src (negsuc n) = none

-- `rotate_rgba_to_rgb565`
pub rotate_rgba_to_rgb565 : (ℕ → ℕ → ℕ → ℕ) → List ℕ → ℕ → ℕ → ℕ → Option (List ℕ)
rotate_rgba_to_rgb565 pack src W H rot =
    rows (rgba_at pack src) W H rot (if rot % 180 == 0 then W else H) 0
      (if rot % 180 == 0 then H else W)
