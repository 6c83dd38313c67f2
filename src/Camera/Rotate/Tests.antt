-- ===== src/Camera/Rotate/Tests.antt =====
-- Runs of the rotation on a picture of 3 × 2 pixels.
use upy_android.Prelude.{ℕ, ◌≡◌, refl, inl, inr, some, none, List, [], ◌∷◌, arith, take, ◌+◌, ◌*◌}
use upy_android.Camera.Rotate.{row, rows, rotate_gray, rotate_rgba_to_rgb565}
use upy_android.Camera.Rotate.Turning.{turned, table}
use upy_android.Camera.Rotate.Upright.{gray, rotate_gray_lem, rotate_gray-back}

abbrev picture : List ℕ
picture = 1 ∷ 2 ∷ 3 ∷ 4 ∷ 5 ∷ 6 ∷ []

rotate_gray_90 : rotate_gray picture 3 2 90 ≡ some (4 ∷ 1 ∷ 5 ∷ 2 ∷ 6 ∷ 3 ∷ [])
unfolding rotate_gray rows row
rotate_gray_90 = refl

rotate_gray_180 : rotate_gray picture 3 2 180 ≡ some (6 ∷ 5 ∷ 4 ∷ 3 ∷ 2 ∷ 1 ∷ [])
unfolding rotate_gray rows row
rotate_gray_180 = refl

rotate_gray_270 : rotate_gray picture 3 2 270 ≡ some (3 ∷ 6 ∷ 2 ∷ 5 ∷ 1 ∷ 4 ∷ [])
unfolding rotate_gray rows row
rotate_gray_270 = refl

-- A frame that is too short is read outside.
rotate_gray_short : rotate_gray (1 ∷ 2 ∷ 3 ∷ []) 2 2 90 ≡ none
unfolding rotate_gray rows row
rotate_gray_short = refl

abbrev rgba : List ℕ
rgba = 1 ∷ 2 ∷ 3 ∷ 0 ∷ 4 ∷ 5 ∷ 6 ∷ 0 ∷ []

rotate_rgba_270 : rotate_rgba_to_rgb565 (λ r g b. r + g + b) rgba 2 1 270 ≡ some (15 ∷ 6 ∷ [])
unfolding rotate_rgba_to_rgb565 rows row
rotate_rgba_270 = refl

rotate_gray_lem_example :
    rotate_gray picture 3 2 90 ≡ some (table (turned 90 3 2 (gray picture 3)) 2 0 3)
rotate_gray_lem_example = rotate_gray_lem picture 3 2 90 (inr (inl refl)) (omega arith)

rotate_gray-back_example :
    rotate_gray (4 ∷ 1 ∷ 5 ∷ 2 ∷ 6 ∷ 3 ∷ []) 2 3 270 ≡ some (take (3 * 2) picture)
rotate_gray-back_example =
    rotate_gray-back picture (4 ∷ 1 ∷ 5 ∷ 2 ∷ 6 ∷ 3 ∷ []) 3 2 90 (inr (inl refl)) (omega arith)
      rotate_gray_90
