-- ===== src/Display/Scaling.antt =====
-- The scale: a step that ends, a factor that is the largest that fits, and a picture inside the buffer.
use upy_android.Prelude.{
  ℕ, zero, suc, ◌+◌, ◌*◌, ◌/◌, ◌≤◌, ◌<◌, ◌≡◌, refl, some, ◌⊎◌, inl, inr, arith, ltb, ◌||◌,
  Bool-cases,
}
use native.Mathlib.Nat.{le-div_iff_mul-le, div-lt_iff_lt-mul}
use upy_android.Display.{Buffer, upscale_loop, upscale_factor, find_step, Geometry, geometry}

-- A number after so many doublings.
unfoldable pub doubled : ℕ → ℕ → ℕ
doubled zero n = n
doubled (suc k) n = doubled k (n * 2)

-- A step at which the picture fits.
pub record Fits (w h : ℕ) (buffer : Buffer) (step : ℕ) : Type 0 where
  pub positive : 0 < step
  pub wide : w ≤ buffer.width * step
  pub high : h ≤ buffer.height * step

-- A step is the least one: it is the first, or at half of it the picture does not fit.
abbrev pub Least : ℕ → ℕ → Buffer → ℕ → ℕ → Type 0
Least w h buffer first s =
    (s ≡ first) ⊎ ((t : ℕ) × ((s ≡ t * 2) × ((buffer.width * t < w) ⊎ (buffer.height * t < h))))

-- Enough fuel for the loop: the picture is at most as large as the step after so many doublings.
pub find_step_lem :
    (k w h : ℕ) (buffer : Buffer) (step : ℕ)
    → 0 < buffer.width
    → 0 < buffer.height
    → 0 < step
    → w ≤ doubled k step
    → h ≤ doubled k step
    → (s : ℕ) × ((find_step (suc k) w h buffer step ≡ some s)
        × (Fits w h buffer s × Least w h buffer step s))
unfolding find_step doubled
find_step_lem zero w h buffer step p q r a b =
    let wide : w ≤ buffer.width * step = grind arith in
    let high : h ≤ buffer.height * step = grind arith in
    (
      step,
      (ground (arith, wide, high), (record { positive = r; wide = wide; high = high }, inl refl)),
    )
find_step_lem (suc k) w h buffer step p q r a b =
    elim (Bool-cases (ltb (buffer.width * step) w || ltb (buffer.height * step) h)) [
      | inl e ↦
          let (s, (f, (g, l))) = find_step_lem k w h buffer (step * 2) p q (omega arith) a b in
          let too_small : (buffer.width * step < w) ⊎ (buffer.height * step < h) =
            ground (arith, e) in
          (
            s,
            (
              rw e f,
              (g, elim l [ inl same ↦ inr (step, (same, too_small)) | inr more ↦ inr more ]),
            ),
          )
      | inr e ↦ (
        step,
        (
          rw e refl,
          (record { positive = r; wide = ground (arith, e); high = ground (arith, e) }, inl refl),
        ),
      )
    ]

-- The factor fits, if 1 does, and no larger candidate does.
pub upscale_factor_lem :
    (w h buf_w buf_h : ℕ)
    → w ≤ buf_w
    → h ≤ buf_h
    → let f = upscale_factor w h buf_w buf_h in
      (0 < f)
      × (w * f ≤ buf_w)
      × (h * f ≤ buf_h)
      × ((f ≡ 8) ⊎ (buf_w < w * (f * 2)) ⊎ (buf_h < h * (f * 2)))
unfolding upscale_factor upscale_loop
upscale_factor_lem w h buf_w buf_h p q = ground arith

pub upscale_factor_one_of :
    (w h buf_w buf_h : ℕ)
    → let f = upscale_factor w h buf_w buf_h in (f ≡ 1) ⊎ (f ≡ 2) ⊎ (f ≡ 4) ⊎ (f ≡ 8)
unfolding upscale_factor upscale_loop
upscale_factor_one_of w h buf_w buf_h = ground arith

-- Where the picture is drawn is inside the buffer, and what is drawn of it inside the picture.
pub record Inside (w h : ℕ) (buffer : Buffer) (g : Geometry) : Type 0 where
  pub wide : g.off_x + g.out_w * g.factor ≤ buffer.width
  pub high : g.off_y + g.out_h * g.factor ≤ buffer.height
  pub steps_w : (ox : ℕ) → ox < g.out_w → ox * g.step < w
  pub steps_h : (oy : ℕ) → oy < g.out_h → oy * g.step < h

-- The places of the rounds of a loop with a step.
div_below : (n s i : ℕ) → 0 < s → i < n / s → i * s < n
div_below n s i p h = let q = (le-div_iff_mul-le p).0 h in grind (arith, q)

pub div_le : (n s b : ℕ) → 0 < s → n ≤ b * s → n / s ≤ b
div_le n s b p h =
    let q : n < (b + 1) * s = grind arith in let r = (div-lt_iff_lt-mul p).1 q in omega (arith, r)

pub geometry-Inside :
    (w h : ℕ) (buffer : Buffer) (step : ℕ)
    → Fits w h buffer step
    → Inside w h buffer (geometry w h buffer step)
unfolding geometry
geometry-Inside w h buffer step f =
    let p = div_le w step buffer.width f.positive f.wide in
    let q = div_le h step buffer.height f.positive f.high in
    let (a, b, c, d) = upscale_factor_lem (w / step) (h / step) buffer.width buffer.height p q in
    record {
      wide = omega (arith, b);
      high = omega (arith, c);
      steps_w = λ ox l. div_below w step ox f.positive l;
      steps_h = λ oy l. div_below h step oy f.positive l;
    }
