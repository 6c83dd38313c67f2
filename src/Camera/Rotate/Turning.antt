-- ===== src/Camera/Rotate/Turning.antt =====
-- The rotation of a frame against the picture that it should give, pixel by pixel.
use upy_android.Prelude.{
  ℕ, zero, suc, ◌+◌, ◌-◌, ◌*◌, ◌≤◌, ◌<◌, ◌≡◌, refl, ap, ◌∙◌, ◌⊎◌, Option, some, List, [], ◌∷◌, ◌++◌,
  ◌==◌, ◌||◌, if◌then◌else◌, arith,
}
use upy_android.Prelude.Ints.{ℤ, pos, neg, ◌+ℤ◌, +ℤ-neg}
use upy_android.Prelude.Memory.{slice}
use upy_android.Camera.Rotate.{src_start, src_step, row}

-- The pixel at `x`, `y` of the picture `f`, `W` × `H`, turned clockwise by `rot` degrees.
abbrev pub turned : ℕ → ℕ → ℕ → (ℕ → ℕ → ℕ) → ℕ → ℕ → ℕ
turned rot W H f x y =
    if rot == 90
    then f y (H - 1 - x)
    else if rot == 180
    then f (W - 1 - x) (H - 1 - y)
    else if rot == 270
    then f (W - 1 - y) x
    else f x y

-- The size of the turned picture.
abbrev pub out_w : ℕ → ℕ → ℕ → ℕ
out_w rot W H = if rot == 90 || rot == 270 then H else W

abbrev pub out_h : ℕ → ℕ → ℕ → ℕ
out_h rot W H = if rot == 90 || rot == 270 then W else H

-- The turns that CameraX delivers.
abbrev pub IsTurn : ℕ → Type 0
IsTurn rot = (rot ≡ 0) ⊎ ((rot ≡ 90) ⊎ ((rot ≡ 180) ⊎ (rot ≡ 270)))

-- `n` rows of the picture `f`, `w` pixels wide, from the row `y` on.
unfoldable pub table : (ℕ → ℕ → ℕ) → ℕ → ℕ → ℕ → List ℕ
table f w y zero = []
table f w y (suc n) = slice (λ x. f x y) 0 w ++ table f w (y + 1) n

-- `read` gives the pixels of the picture `f`.
abbrev pub Reads : (ℤ → Option ℕ) → ℕ → ℕ → (ℕ → ℕ → ℕ) → Type 0
Reads read W H f = (x y : ℕ) → x < W → y < H → read (pos (y * W + x)) ≡ some (f x y)

-- A row along a straight line of indices.
row_line :
    (read : ℤ → Option ℕ) (step : ℤ) (line : ℕ → ℕ) (g : ℕ → ℕ) (j n : ℕ)
    → ((k : ℕ) → j ≤ k → k < j + n → read (pos (line k)) ≡ some (g k))
    → ((k : ℕ) → j ≤ k → k + 1 < j + n → pos (line k) +ℤ step ≡ pos (line (k + 1)))
    → row read (pos (line j)) step n ≡ some (slice g j n)
unfolding row
row_line read step line g j zero h s = refl
row_line read step line g j (suc zero) h s = rw (h j (omega arith) (omega arith)) refl
row_line read step line g j (suc (suc n)) h s =
    let e : row read (pos (line (j + 1))) step (suc n) ≡ some (slice g (j + 1) (suc n)) =
      row_line read step line g (j + 1) (suc n) (λ k p q. h k (omega arith) (omega arith))
        (λ k p q. s k (omega arith) (omega arith)) in
    rw (h j (omega arith) (omega arith)) (
      rw (s j (omega arith) (omega arith))
        (rw e (ap (λ m. some (g j ∷ slice g m (suc n))) (omega arith))))

-- The same from an index that is known where there is a pixel to read.
line_lem :
    (read : ℤ → Option ℕ) (step i : ℤ) (line : ℕ → ℕ) (g : ℕ → ℕ) (n : ℕ)
    → (0 < n → i ≡ pos (line 0))
    → ((k : ℕ) → k < n → read (pos (line k)) ≡ some (g k))
    → ((k : ℕ) → k + 1 < n → pos (line k) +ℤ step ≡ pos (line (k + 1)))
    → row read i step n ≡ some (slice g 0 n)
unfolding row
line_lem read step i line g zero e h s = refl
line_lem read step i line g (suc n) e h s =
    rw (e (omega arith)) (
      row_line read step line g 0 (suc n) (λ k p q. h k (omega arith)) (λ k p q. s k (omega arith)))

mul_suc : (m W : ℕ) → suc m * W ≡ W + m * W
mul_suc m W = omega arith

module _ (read : ℤ → Option ℕ) (W H : ℕ) (f : ℕ → ℕ → ℕ) (y : ℕ) (r : Reads read W H f) where
  -- A row of the picture turned by 90 degrees runs up a column of the source.
  pub row_90 :
      y < W
      → row read (src_start 90 W H y) (src_step 90 W) H
        ≡ some (slice (λ x. turned 90 W H f x y) 0 H)
  row_90 h =
      line_lem read (neg W) _ (λ x. (H - 1 - x) * W + y) _ H (λ p. ground arith)
        (λ k p. r y (H - 1 - k) h (omega arith))
        (λ k p.
          let e : H - 1 - k ≡ suc (H - 1 - (k + 1)) = omega arith in
          let m = mul_suc (H - 1 - (k + 1)) W in
          rw e (+ℤ-neg _ W (omega arith) ∙ ap pos (omega arith)))

  -- By 180 degrees: back along a row.
  pub row_180 :
      y < H
      → row read (src_start 180 W H y) (src_step 180 W) W
        ≡ some (slice (λ x. turned 180 W H f x y) 0 W)
  row_180 h =
      line_lem read (neg 1) _ (λ x. (H - 1 - y) * W + (W - 1 - x)) _ W (λ p. ground arith)
        (λ k p. r (W - 1 - k) (H - 1 - y) (omega arith) (omega arith))
        (λ k p. +ℤ-neg _ 1 (omega arith) ∙ ap pos (omega arith))

  -- By 270 degrees: down a column.
  pub row_270 :
      y < W
      → row read (src_start 270 W H y) (src_step 270 W) H
        ≡ some (slice (λ x. turned 270 W H f x y) 0 H)
  row_270 h =
      line_lem read (pos W) _ (λ x. x * W + (W - 1 - y)) _ H (λ p. ground arith)
        (λ k p. r (W - 1 - y) k (omega arith) (omega arith)) (λ k p. ap pos (omega arith))

  -- Not turned: along a row.
  pub row_0 :
      y < H
      → row read (src_start 0 W H y) (src_step 0 W) W ≡ some (slice (λ x. turned 0 W H f x y) 0 W)
  row_0 h =
      line_lem read (pos 1) _ (λ x. y * W + x) _ W (λ p. ap pos (omega arith)) (λ k p. r k y p h)
        (λ k p. ap pos (omega arith))
