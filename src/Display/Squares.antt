-- ===== src/Display/Squares.antt =====
-- The words of the buffer that the square of a pixel, a row and the picture own.
use upy_android.Prelude.{ℕ, ◌+◌, ◌*◌, ◌/◌, ◌≤◌, ◌<◌, ◌≡◌, refl, ap, some, arith, lt→ltb}
use native.Mathlib.Nat.{mul-add-div_right, div-eq_of_lt}
use upy_android.Prelude.Words.{update, update_self, update_ne}
use upy_android.Display.{Buffer, Geometry, store, for, word_at, draw_square}
use upy_android.Display.Scaling.{Inside}
use upy_android.Display.Drawing.{word-Inside, index_in_range}
use upy_android.Display.Painting.{Does, Range, of_range, for-Does}

-- A row and a column by their index.
row_of_index : (y x y' x' w : ℕ) → x < w → x' < w → y * w + x ≡ y' * w + x' → y ≡ y'
row_of_index y x y' x' w p q e =
    let positive : 0 < w = omega (arith, p) in
    let a = mul-add-div_right positive y x in
    let b = mul-add-div_right positive y' x' in
    let c = div-eq_of_lt p in
    let d = div-eq_of_lt q in let f = ap (λ (t : ℕ). t / w) e in omega (arith, a, b, c, d, f)

same_index : (y x y' x' w : ℕ) → x < w → x' < w → y * w + x ≡ y' * w + x' → (y ≡ y') × (x ≡ x')
same_index y x y' x' w p q e =
    let r = row_of_index y x y' x' w p q e in
    (r, let f = ap (λ (t : ℕ). t * w) r in omega (arith, e, f))

module _ (w h : ℕ) (buffer : Buffer) (g : Geometry) (inside : Inside w h buffer g)
    (stride : buffer.width ≤ buffer.stride) where
  column : (ox dx : ℕ) → ox < g.out_w → dx < g.factor → g.off_x + ox * g.factor + dx < buffer.stride
  column ox dx p r =
      let a = index_in_range ox dx g.out_w g.factor p r in
      let b = inside.wide in omega (arith, a, b, stride)

  -- Two words of squares that are one are of one square, and one in it.
  pub word_inj :
      (ox oy dx dy ox' oy' dx' dy' : ℕ)
      → ox < g.out_w
      → dx < g.factor
      → dy < g.factor
      → ox' < g.out_w
      → dx' < g.factor
      → dy' < g.factor
      → word_at buffer g ox oy dx dy ≡ word_at buffer g ox' oy' dx' dy'
      → (oy ≡ oy') × ((dy ≡ dy') × ((ox ≡ ox') × (dx ≡ dx')))
  word_inj ox oy dx dy ox' oy' dx' dy' p r s p' r' s' e =
      let (a, b) =
        same_index (g.off_y + oy * g.factor + dy) (g.off_x + ox * g.factor + dx)
          (g.off_y + oy' * g.factor + dy') (g.off_x + ox' * g.factor + dx') buffer.stride
          (column ox dx p r) (column ox' dx' p' r') (omega (arith, e)) in
      let (c, d) = same_index oy dy oy' dy' g.factor s s' (omega (arith, a)) in
      let (c', d') = same_index ox dx ox' dx' g.factor r r' (omega (arith, b)) in (c, (d, (c', d')))

  -- What a row of a square, a square, a row of squares and the picture own.
  abbrev pub Dot : ℕ → Type 0
  Dot dx = Unit {0}

  abbrev pub Line : ℕ → Type 0
  Line dy = Range 0 g.factor Dot

  abbrev pub Square : ℕ → Type 0
  Square ox = Range 0 g.factor Line

  abbrev pub Row : ℕ → Type 0
  Row oy = Range 0 g.out_w Square

  abbrev pub dot_at : ℕ → ℕ → ℕ → (dx : ℕ) → Dot dx → ℕ
  dot_at oy ox dy dx d = word_at buffer g ox oy dx dy

  abbrev pub line_at : ℕ → ℕ → (dy : ℕ) → Line dy → ℕ
  line_at oy ox dy = of_range 0 g.factor Dot (dot_at oy ox dy)

  abbrev pub square_at : ℕ → (ox : ℕ) → Square ox → ℕ
  square_at oy ox = of_range 0 g.factor Line (line_at oy ox)

  abbrev pub row_at : (oy : ℕ) → Row oy → ℕ
  row_at oy = of_range 0 g.out_w Square (square_at oy)

  -- The same value for each word that is owned.
  abbrev pub line_of : ℕ → (dy : ℕ) → Line dy → ℕ
  line_of v dy = of_range 0 g.factor Dot (λ dx d. v)

  abbrev pub square_of : (ℕ → ℕ → ℕ) → ℕ → (ox : ℕ) → Square ox → ℕ
  square_of shade oy ox = of_range 0 g.factor Line (line_of (shade ox oy))

  abbrev pub row_of : (ℕ → ℕ → ℕ) → (oy : ℕ) → Row oy → ℕ
  row_of shade oy = of_range 0 g.out_w Square (square_of shade oy)

  pub Square-Does :
      (v ox oy : ℕ) (bits : ℕ → ℕ)
      → ox < g.out_w
      → oy < g.out_h
      → (bits' : ℕ → ℕ) × ((draw_square buffer g v ox oy bits ≡ some bits')
          × Does (Square ox) (square_at oy ox) (of_range 0 g.factor Line (line_of v)) bits bits')
  unfolding draw_square
  Square-Does v ox oy bits p q =
      for-Does Line (line_at oy ox) (line_of v)
        (λ dy.
          for
            (λ dx bits. store (buffer.stride * buffer.height) v bits (word_at buffer g ox oy dx dy))
            0 g.factor)
        0 g.factor bits
        (λ dy s bits.
          for-Does Dot (dot_at oy ox dy) (λ dx d. v)
            (λ dx bits. store (buffer.stride * buffer.height) v bits (word_at buffer g ox oy dx dy))
            0 g.factor bits
            (λ dx r bits. (
              update bits (word_at buffer g ox oy dx dy) v,
              (
                rw
                    (lt→ltb (word_at buffer g ox oy dx dy) (buffer.stride * buffer.height) (
                      word-Inside w h buffer g ox oy dx dy inside stride p q (omega (arith, r))
                        (omega (arith, s))))
                    refl,
                record {
                  painted = λ d. update_self bits (word_at buffer g ox oy dx dy) v;
                  left = λ i a. update_ne bits v (a tt);
                },
              ),
            ))
            (λ dx dx' r r' n d d' e. n (omega (arith, e))))
        (λ dy dy' s s' n (dx, (_, (r, _))) (dx', (_, (r', _))) e.
          n
            (word_inj ox oy dx dy ox oy dx' dy' p (omega (arith, r)) (omega (arith, s)) p
              (omega (arith, r')) (omega (arith, s')) e).1.0)
