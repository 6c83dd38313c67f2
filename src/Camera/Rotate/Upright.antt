-- ===== src/Camera/Rotate/Upright.antt =====
-- The rotation copies exactly the turned picture, reads nothing outside the frame, and can be undone.
use upy_android.Prelude.{
  ℕ, zero, suc, ◌+◌, ◌-◌, ◌*◌, ◌%◌, ◌≤◌, ◌<◌, ◌≡◌, refl, sym, ap, ◌∙◌, inl, inr, Option, some, List,
  [], ◌∷◌, ◌++◌, length, length-append, get_elem?, get_or, take, arith,
}
use mathlib.Core.Path.{ap₂}
use upy_android.Prelude.Ints.{ℤ}
use upy_android.Prelude.Memory.{slice, slice-ext, slice-append, length-slice}
use upy_android.Camera.Rotate.{
  src_start, src_step, row, rows, at, rotate_gray, rgba_at, rotate_rgba_to_rgb565,
}
use upy_android.Camera.Rotate.Turning.{
  turned, out_w, out_h, IsTurn, table, Reads, row_90, row_180, row_270, row_0,
}

rows_lem :
    (read : ℤ → Option ℕ) (W H rot w : ℕ) (g : ℕ → ℕ → ℕ) (y n : ℕ)
    → ((k : ℕ)
        → k < y + n
        → row read (src_start rot W H k) (src_step rot W) w ≡ some (slice (λ x. g x k) 0 w))
    → rows read W H rot w y n ≡ some (table g w y n)
unfolding rows table
rows_lem read W H rot w g y zero h = refl
rows_lem read W H rot w g y (suc n) h =
    let e = rows_lem read W H rot w g (y + 1) n (λ k p. h k (omega arith)) in
    rw (h y (omega arith)) (rw e refl)

-- Every read of the loops is a pixel of the frame.
rows-turned :
    (read : ℤ → Option ℕ) (W H rot : ℕ) (f : ℕ → ℕ → ℕ)
    → IsTurn rot
    → Reads read W H f
    → rows read W H rot (out_w rot W H) 0 (out_h rot W H)
      ≡ some (table (turned rot W H f) (out_w rot W H) 0 (out_h rot W H))
rows-turned read W H rot f (inl e) r =
    rw e (rows_lem read W H 0 W f 0 H (λ k p. row_0 read W H f k r (omega arith)))
rows-turned read W H rot f (inr (inl e)) r =
    rw e (rows_lem read W H 90 H (turned 90 W H f) 0 W (λ k p. row_90 read W H f k r (omega arith)))
rows-turned read W H rot f (inr (inr (inl e))) r =
    rw e
      (rows_lem read W H 180 W (turned 180 W H f) 0 H (λ k p. row_180 read W H f k r (omega arith)))
rows-turned read W H rot f (inr (inr (inr e))) r =
    rw e
      (rows_lem read W H 270 H (turned 270 W H f) 0 W (λ k p. row_270 read W H f k r (omega arith)))

cell_lt : (W H x y : ℕ) → x < W → y < H → y * W + x < W * H
cell_lt W H x y p q = let e : H ≡ y + 1 + (H - y - 1) = omega arith in rw e (grind (arith))

-- The pixels of a frame of one byte each.
abbrev pub gray : List ℕ → ℕ → ℕ → ℕ → ℕ
gray src W x y = get_or src (y * W + x) 0

get_elem?-get_or : (xs : List ℕ) (i : ℕ) → i < length xs → get_elem? xs i ≡ some (get_or xs i 0)
get_elem?-get_or [] i h = absurd (omega arith)
get_elem?-get_or (x ∷ xs) zero h = refl
get_elem?-get_or (x ∷ xs) (suc i) h = get_elem?-get_or xs i (omega arith)

at-Reads : (src : List ℕ) (W H : ℕ) → W * H ≤ length src → Reads (at src) W H (gray src W)
at-Reads src W H h x y p q =
    get_elem?-get_or src (y * W + x) (let c = cell_lt W H x y p q in omega arith)

-- The pixels of a frame of four bytes each.
abbrev pub rgb565 : (ℕ → ℕ → ℕ → ℕ) → List ℕ → ℕ → ℕ → ℕ → ℕ
rgb565 pack src W x y =
    let i = 4 * (y * W + x) in pack (get_or src i 0) (get_or src (i + 1) 0) (get_or src (i + 2) 0)

rgba_at-Reads :
    (pack : ℕ → ℕ → ℕ → ℕ) (src : List ℕ) (W H : ℕ)
    → 4 * (W * H) ≤ length src
    → Reads (rgba_at pack src) W H (rgb565 pack src W)
rgba_at-Reads pack src W H h x y p q =
    let c = cell_lt W H x y p q in
    rw (get_elem?-get_or src (4 * (y * W + x)) (omega arith)) (
      rw (get_elem?-get_or src (4 * (y * W + x) + 1) (omega arith))
        (rw (get_elem?-get_or src (4 * (y * W + x) + 2) (omega arith)) refl))

slice-shift : (g : ℕ → ℕ) (a i n : ℕ) → slice (λ x. g (a + x)) i n ≡ slice g (a + i) n
slice-shift g a i zero = refl
slice-shift g a i (suc n) =
    ap (λ xs. g (a + i) ∷ xs)
      (slice-shift g a (suc i) n
        ∙ ap (λ j. slice g j n) {x = a + suc i} {y = suc (a + i)} (omega arith))

table-slice : (g : ℕ → ℕ) (W y n : ℕ) → table (λ x y. g (y * W + x)) W y n ≡ slice g (y * W) (n * W)
unfolding table
table-slice g W y zero = let e : 0 * W ≡ 0 = omega arith in rw e refl
table-slice g W y (suc n) =
    let e : y * W + 0 ≡ y * W = omega arith in
    let next : (y + 1) * W ≡ y * W + W = omega arith in
    let size : suc n * W ≡ W + n * W = omega arith in
    rw (slice-shift g (y * W) 0 W) (
      rw (table-slice g W (y + 1) n)
        (rw size (rw next (rw e (sym (slice-append g (y * W) W (n * W)))))))

slice-suc : (f : ℕ → ℕ) (i n : ℕ) → slice f (suc i) n ≡ slice (λ j. f (suc j)) i n
slice-suc f i zero = refl
slice-suc f i (suc n) = ap (λ xs. f (suc i) ∷ xs) (slice-suc f (suc i) n)

slice-get_or : (xs : List ℕ) (n : ℕ) → n ≤ length xs → slice (λ i. get_or xs i 0) 0 n ≡ take n xs
slice-get_or xs zero h = refl
slice-get_or [] (suc n) h = absurd (omega arith)
slice-get_or (x ∷ xs) (suc n) h =
    ap (λ ys. x ∷ ys) (slice-suc (λ i. get_or (x ∷ xs) i 0) 0 n ∙ slice-get_or xs n (omega arith))

table-ext :
    (f g : ℕ → ℕ → ℕ) (w y n : ℕ)
    → ((x k : ℕ) → x < w → k < y + n → f x k ≡ g x k)
    → table f w y n ≡ table g w y n
unfolding table
table-ext f g w y zero h = refl
table-ext f g w y (suc n) h =
    rw (slice-ext (λ x. f x y) (λ x. g x y) 0 w (λ j p q. h j y (omega arith) (omega arith)))
      (rw (table-ext f g w (y + 1) n (λ x k p q. h x k p (omega arith))) refl)

-- The frame, read row by row, is the bytes of the frame.
table-gray :
    (src : List ℕ) (W H : ℕ) → W * H ≤ length src → table (gray src W) W 0 H ≡ take (W * H) src
table-gray src W H h =
    let start : 0 * W ≡ 0 = omega arith in
    let size : H * W ≡ W * H = omega arith in
    rw (table-slice (λ i. get_or src i 0) W 0 H) (rw start (rw size (slice-get_or src (W * H) h)))

-- A gray frame with all its bytes there, turned by one of the four turns that CameraX delivers, comes out
-- as the turned picture, row by row, and every read is one of the frame's bytes.
pub rotate_gray_lem :
    (src : List ℕ) (W H rot : ℕ)
    → IsTurn rot
    → W * H ≤ length src
    → rotate_gray src W H rot
      ≡ some (table (turned rot W H (gray src W)) (out_w rot W H) 0 (out_h rot W H))
unfolding rotate_gray
rotate_gray_lem src W H rot (inl e) h = rw e (rw (table-gray src W H h) (ground arith))
rotate_gray_lem src W H rot (inr (inl e)) h =
    rw e (rows-turned (at src) W H 90 (gray src W) (inr (inl refl)) (at-Reads src W H h))
rotate_gray_lem src W H rot (inr (inr (inl e))) h =
    rw e (rows-turned (at src) W H 180 (gray src W) (inr (inr (inl refl))) (at-Reads src W H h))
rotate_gray_lem src W H rot (inr (inr (inr e))) h =
    rw e (rows-turned (at src) W H 270 (gray src W) (inr (inr (inr refl))) (at-Reads src W H h))

-- An RGBA frame with all its bytes there, turned by one of the four turns that CameraX delivers, comes out
-- as the turned picture of RGB565 pixels, row by row, and every read is one of the frame's bytes.
pub rotate_rgba_lem :
    (pack : ℕ → ℕ → ℕ → ℕ) (src : List ℕ) (W H rot : ℕ)
    → IsTurn rot
    → 4 * (W * H) ≤ length src
    → rotate_rgba_to_rgb565 pack src W H rot
      ≡ some (table (turned rot W H (rgb565 pack src W)) (out_w rot W H) 0 (out_h rot W H))
unfolding rotate_rgba_to_rgb565
rotate_rgba_lem pack src W H rot (inl e) h = rw e (
    rows-turned (rgba_at pack src) W H 0 (rgb565 pack src W) (inl refl)
      (rgba_at-Reads pack src W H h))
rotate_rgba_lem pack src W H rot (inr (inl e)) h = rw e (
    rows-turned (rgba_at pack src) W H 90 (rgb565 pack src W) (inr (inl refl))
      (rgba_at-Reads pack src W H h))
rotate_rgba_lem pack src W H rot (inr (inr (inl e))) h = rw e (
    rows-turned (rgba_at pack src) W H 180 (rgb565 pack src W) (inr (inr (inl refl)))
      (rgba_at-Reads pack src W H h))
rotate_rgba_lem pack src W H rot (inr (inr (inr e))) h = rw e (
    rows-turned (rgba_at pack src) W H 270 (rgb565 pack src W) (inr (inr (inr refl)))
      (rgba_at-Reads pack src W H h))

get_or-append_left :
    (xs ys : List ℕ) (i : ℕ) → i < length xs → get_or (xs ++ ys) i 0 ≡ get_or xs i 0
get_or-append_left [] ys i h = absurd (omega arith)
get_or-append_left (x ∷ xs) ys zero h = refl
get_or-append_left (x ∷ xs) ys (suc i) h = get_or-append_left xs ys i (omega arith)

get_or-append_right : (xs ys : List ℕ) (i : ℕ) → get_or (xs ++ ys) (length xs + i) 0 ≡ get_or ys i 0
get_or-append_right [] ys i = ap (λ j. get_or ys j 0) (omega arith)
get_or-append_right (x ∷ xs) ys i =
    let e : suc (length xs) + i ≡ suc (length xs + i) = omega arith in
    rw e (get_or-append_right xs ys i)

get_or-slice : (f : ℕ → ℕ) (i n j : ℕ) → j < n → get_or (slice f i n) j 0 ≡ f (i + j)
get_or-slice f i zero j h = absurd (omega arith)
get_or-slice f i (suc n) zero h = ap f (omega arith)
get_or-slice f i (suc n) (suc j) h = get_or-slice f (suc i) n j (omega arith) ∙ ap f (omega arith)

-- A pixel of a table, by its index.
gray-table :
    (f : ℕ → ℕ → ℕ) (w y n x k : ℕ) → x < w → k < n → gray (table f w y n) w x k ≡ f x (y + k)
unfolding table
gray-table f w y zero x k p q = absurd (omega arith)
gray-table f w y (suc n) x zero p q =
    let e : 0 * w + x ≡ x = omega arith in
    let z : y + 0 ≡ y = omega arith in
    rw e (
      rw z (
        get_or-append_left _ _ x (omega (arith, length-slice (λ x. f x y) 0 w))
        ∙ get_or-slice (λ x. f x y) 0 w x p
        ∙ ap (λ j. f j y) (omega arith)))
gray-table f w y (suc n) x (suc k) p q =
    let e : suc k * w + x ≡ length (slice (λ x. f x y) 0 w) + (k * w + x) =
      omega (arith, length-slice (λ x. f x y) 0 w) in
    let z : y + 1 + k ≡ y + suc k = omega arith in
    rw e (
      get_or-append_right _ (table f w (y + 1) n) (k * w + x)
      ∙ gray-table f w (y + 1) n x k p (omega arith)
      ∙ ap (f x) z)

gray-table_start :
    (f : ℕ → ℕ → ℕ) (w n x k : ℕ) → x < w → k < n → gray (table f w 0 n) w x k ≡ f x k
gray-table_start f w n x k p q = gray-table f w 0 n x k p q ∙ ap (f x) (omega arith)

length-table : (f : ℕ → ℕ → ℕ) (w y n : ℕ) → length (table f w y n) ≡ w * n
unfolding table
length-table f w y zero = omega arith
length-table f w y (suc n) =
    rw (length-append (slice (λ x. f x y) 0 w) (table f w (y + 1) n))
      (omega (arith, length-slice (λ x. f x y) 0 w, length-table f w (y + 1) n))

-- The turn that undoes a turn.
abbrev pub back : ℕ → ℕ
back rot = (360 - rot) % 360

undo :
    (g f : ℕ → ℕ → ℕ) (w h rot : ℕ)
    → IsTurn rot
    → ((x y : ℕ)
        → x < out_w rot w h
        → y < out_h rot w h
        → turned rot w h (gray (table g w 0 h) w) x y ≡ f x y)
    → rotate_gray (table g w 0 h) w h rot ≡ some (table f (out_w rot w h) 0 (out_h rot w h))
undo g f w h rot t same =
    rotate_gray_lem (table g w 0 h) w h rot t (omega (arith, length-table g w 0 h))
    ∙ ap some
        (table-ext _ f (out_w rot w h) 0 (out_h rot w h) (λ x y p q. same x y p (omega arith)))

turned-back :
    (src : List ℕ) (W H rot : ℕ)
    → IsTurn rot
    → rotate_gray
        (table (turned rot W H (gray src W)) (out_w rot W H) 0 (out_h rot W H))
        (out_w rot W H)
        (out_h rot W H)
        (back rot)
      ≡ some (table (gray src W) W 0 H)
turned-back src W H rot (inl e) = rw e (
    undo (gray src W) (gray src W) W H 0 (inl refl)
      (λ x y p q. gray-table_start (gray src W) W H x y p q))
turned-back src W H rot (inr (inl e)) = rw e (
    undo (turned 90 W H (gray src W)) (gray src W) H W 270 (inr (inr (inr refl))) (λ x y p q.
      gray-table_start (turned 90 W H (gray src W)) H W (H - 1 - y) x (omega arith) p
      ∙ ap (gray src W x) (omega arith)))
turned-back src W H rot (inr (inr (inl e))) = rw e (
    undo (turned 180 W H (gray src W)) (gray src W) W H 180 (inr (inr (inl refl))) (λ x y p q.
      gray-table_start (turned 180 W H (gray src W)) W H (W - 1 - x) (H - 1 - y) (omega arith)
        (omega arith)
      ∙ ap₂ (gray src W) (omega arith) (omega arith)))
turned-back src W H rot (inr (inr (inr e))) = rw e (
    undo (turned 270 W H (gray src W)) (gray src W) H W 90 (inr (inl refl)) (λ x y p q.
      gray-table_start (turned 270 W H (gray src W)) H W y (W - 1 - x) q (omega arith)
      ∙ ap (λ k. gray src W k y) (omega arith)))

-- A gray frame with all its bytes there, turned by one of the four turns that CameraX delivers, is the
-- frame again when it is turned on to 360 degrees.
pub rotate_gray-back :
    (src mid : List ℕ) (W H rot : ℕ)
    → IsTurn rot
    → W * H ≤ length src
    → rotate_gray src W H rot ≡ some mid
    → rotate_gray mid (out_w rot W H) (out_h rot W H) (back rot) ≡ some (take (W * H) src)
rotate_gray-back src mid W H rot t h e =
    let same : some (table (turned rot W H (gray src W)) (out_w rot W H) 0 (out_h rot W H))
        ≡ some mid =
      sym (rotate_gray_lem src W H rot t h) ∙ e in
    let start : table (turned rot W H (gray src W)) (out_w rot W H) 0 (out_h rot W H) ≡ mid =
      cc same in
    rw (← start) (turned-back src W H rot t ∙ ap some (table-gray src W H h))
