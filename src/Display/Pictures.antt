-- ===== src/Display/Pictures.antt =====
-- What a script asks to be shown, said by turning and mirroring whole pictures, and where it should stand.
use upy_android.Prelude.{
  ℕ, ◌+◌, ◌-◌, ◌*◌, ◌/◌, ◌≤◌, ◌<◌, ◌≡◌, refl, sym, ◌∙◌, Bool, true, false, Option, some, ◌⊎◌, inl,
  inr, arith, get_elem?, lt→ltb, Bool-cases,
}
use upy_android.Display.{
  Display, Image, Hint, Buffer, Geometry, geometry, mirror, go_on, get_pixel, logical_w, logical_h,
  read_hint, read_pixel,
}
use upy_android.Display.Scaling.{Fits, upscale_factor_lem, upscale_factor_one_of, div_le}

-- A picture gives the pixel of a column and a row.
abbrev pub Picture : Type 0
Picture = ℕ → ℕ → Option ℕ

-- A picture of `n` columns, left to right; one of `n` rows, upside down; and one with columns for rows.
abbrev pub mirrored : ℕ → Picture → Picture
mirrored n p x y = p (n - 1 - x) y

abbrev pub flipped : ℕ → Picture → Picture
flipped n p x y = p x (n - 1 - y)

abbrev pub turned : Picture → Picture
turned p x y = p y x

abbrev pub only_if : Bool → (Picture → Picture) → Picture → Picture
only_if true f p = f p
only_if false f p = p

abbrev pub pixel_of : Image → Picture
pixel_of src x y = get_elem? src.pixels (y * src.w + x)

-- The image as the hint says, transposed first, and then as the display says.
pub picture : Display → Image → Hint → Picture
picture self src hint = only_if self.hmirror (mirrored (logical_w src hint)) (
    only_if self.vflip (flipped (logical_h src hint)) (
      only_if hint.hmirror (mirrored (logical_w src hint)) (
        only_if hint.vflip (flipped (logical_h src hint))
          (only_if hint.transpose turned (pixel_of src)))))

-- A place, mirrored.
abbrev at : Bool → ℕ → ℕ → ℕ
at false n i = i
at true n i = n - 1 - i

at-lt : (b : Bool) (n i : ℕ) → i < n → at b n i < n
at-lt false n i h = h
at-lt true n i h = omega arith

mirror-at : (b : Bool) (n i : ℕ) → i < n → mirror b n i ≡ some (at b n i)
mirror-at false n i h = refl
mirror-at true n i h = rw (lt→ltb i n h) refl

mirrored-at :
    (b : Bool) (n : ℕ) (p : Picture) (x y : ℕ) → only_if b (mirrored n) p x y ≡ p (at b n x) y
mirrored-at false n p x y = refl
mirrored-at true n p x y = refl

flipped-at :
    (b : Bool) (n : ℕ) (p : Picture) (x y : ℕ) → only_if b (flipped n) p x y ≡ p x (at b n y)
flipped-at false n p x y = refl
flipped-at true n p x y = refl

get_pixel-pixel_of :
    (src : Image) (x y : ℕ) → x < src.w → y < src.h → get_pixel src x y ≡ pixel_of src x y
get_pixel-pixel_of src x y p q = rw (lt→ltb x src.w p) (rw (lt→ltb y src.h q) refl)

-- A pixel read through two mirrors.
mirrors_lem :
    (src : Image) (bx hb : Bool) (x y : ℕ)
    → x < src.w
    → y < src.h
    → go_on (λ x. go_on (λ y. get_pixel src x y) (mirror hb src.h y)) (mirror bx src.w x)
      ≡ pixel_of src (at bx src.w x) (at hb src.h y)
mirrors_lem src bx hb x y p q = rw (mirror-at bx src.w x p) (
    rw (mirror-at hb src.h y q) (
      get_pixel-pixel_of src (at bx src.w x) (at hb src.h y) (at-lt bx src.w x p)
        (at-lt hb src.h y q)))

module _ (src : Image) (hint : Hint) where
  hint_lem :
      (x y : ℕ)
      → x < logical_w src hint
      → y < logical_h src hint
      → read_hint src hint x y
        ≡ only_if hint.transpose turned
            (pixel_of src)
            (at hint.hmirror (logical_w src hint) x)
            (at hint.vflip (logical_h src hint) y)
  hint_lem x y p q = elim (Bool-cases hint.transpose) [
    | inl e ↦
        let p' : x < src.h = ground (arith, p, e) in
        let q' : y < src.w = ground (arith, q, e) in
        rw e (mirrors_lem src hint.vflip hint.hmirror y x q' p')
    | inr e ↦
        let p' : x < src.w = ground (arith, p, e) in
        let q' : y < src.h = ground (arith, q, e) in
        rw e (mirrors_lem src hint.hmirror hint.vflip x y p' q')
  ]

  pub read_pixel-picture :
      (self : Display) (x y : ℕ)
      → x < logical_w src hint
      → y < logical_h src hint
      → read_pixel src hint self x y ≡ picture self src hint x y
  unfolding read_pixel picture
  read_pixel-picture self x y p q =
      let w = logical_w src hint in
      let h = logical_h src hint in
      rw (mirror-at self.hmirror w x p) (
        rw (mirror-at self.vflip h y q) (
          hint_lem (at self.hmirror w x) (at self.vflip h y) (at-lt self.hmirror w x p)
            (at-lt self.vflip h y q)
          ∙ sym (
              mirrored-at self.hmirror w _ x y
              ∙ flipped-at self.vflip h _ (at self.hmirror w x) y
              ∙ mirrored-at hint.hmirror w _ (at self.hmirror w x) (at self.vflip h y)
              ∙ flipped-at hint.vflip h _ (at hint.hmirror w (at self.hmirror w x))
                  (at self.vflip h y))))

-- A picture of this size drawn at a step: every `step`-th pixel, as squares of the largest of four factors that
-- fits, in the middle of the buffer.
pub record Placed (w h : ℕ) (buffer : Buffer) (step : ℕ) (g : Geometry) : Type 0 where
  pub out_w : g.out_w ≡ w / step
  pub out_h : g.out_h ≡ h / step
  pub factor : (g.factor ≡ 1) ⊎ (g.factor ≡ 2) ⊎ (g.factor ≡ 4) ⊎ (g.factor ≡ 8)
  pub largest :
      (g.factor ≡ 8)
      ⊎ (buffer.width < g.out_w * (g.factor * 2))
      ⊎ (buffer.height < g.out_h * (g.factor * 2))
  pub wide : 2 * g.off_x + g.out_w * g.factor ≤ buffer.width
  pub high : 2 * g.off_y + g.out_h * g.factor ≤ buffer.height
  pub middle_x : buffer.width ≤ 2 * g.off_x + g.out_w * g.factor + 1
  pub middle_y : buffer.height ≤ 2 * g.off_y + g.out_h * g.factor + 1

pub geometry-Placed :
    (w h : ℕ) (buffer : Buffer) (step : ℕ)
    → Fits w h buffer step
    → Placed w h buffer step (geometry w h buffer step)
unfolding geometry
geometry-Placed w h buffer step f =
    let p = div_le w step buffer.width f.positive f.wide in
    let q = div_le h step buffer.height f.positive f.high in
    let (a, b, c, d) = upscale_factor_lem (w / step) (h / step) buffer.width buffer.height p q in
    record {
      out_w = refl;
      out_h = refl;
      factor = upscale_factor_one_of (w / step) (h / step) buffer.width buffer.height;
      largest = d;
      wide = omega (arith, b);
      high = omega (arith, c);
      middle_x = omega (arith, b);
      middle_y = omega (arith, c);
    }
