-- ===== src/Display/Drawing.antt =====
-- Where a picture is read and drawn: pixels of the image, and words of the buffer.
use upy_android.Prelude.{
  ℕ, zero, suc, ◌+◌, ◌-◌, ◌*◌, ◌≤◌, ◌<◌, ◌≡◌, refl, Bool, true, false, some, List, [], ◌∷◌, inl,
  inr, arith, lt→ltb, Bool-cases, length, get_elem?,
}
use upy_android.Display.{
  Display, Image, Hint, Buffer, Geometry, go_on, mirror, get_pixel, word_at, logical_w, logical_h,
  read_hint, read_pixel,
}
use upy_android.Display.Scaling.{Inside}

get_elem?-some :
    {A : Type 0} (xs : List A) (i : ℕ) → i < length xs → (x : A) × (get_elem? xs i ≡ some x)
get_elem?-some [] i h = absurd (omega arith)
get_elem?-some (x ∷ xs) zero h = (x, refl)
get_elem?-some (x ∷ xs) (suc i) h = get_elem?-some xs i (omega arith)

mirror-some : (b : Bool) (n i : ℕ) → i < n → (j : ℕ) × ((mirror b n i ≡ some j) × (j < n))
mirror-some false n i h = (i, (refl, h))
mirror-some true n i h = (n - 1 - i, (ground arith, omega arith))

-- Where a pixel stands.
pub index_in_range : (y x h w : ℕ) → y < h → x < w → y * w + x < w * h
index_in_range y x h w p q = grind arith

-- An image with all its pixels.
abbrev pub IsWhole : Image → Type 0
IsWhole src = length src.pixels ≡ src.w * src.h

get_pixel-some :
    (src : Image) (x y : ℕ)
    → IsWhole src
    → x < src.w
    → y < src.h
    → (p : ℕ) × (get_pixel src x y ≡ some p)
get_pixel-some src x y v p q =
    let r = index_in_range y x src.h src.w q p in
    let (k, e) = get_elem?-some src.pixels (y * src.w + x) (omega (arith, v, r)) in
    (k, rw (lt→ltb x src.w p) (rw (lt→ltb y src.h q) e))

module _ (src : Image) (whole : IsWhole src) where
  -- A pixel through both mirrors.
  mirrored :
      (bx hb : Bool) (x y : ℕ)
      → x < src.w
      → y < src.h
      → (p : ℕ) × (go_on
            (λ x. go_on (λ y. get_pixel src x y) (mirror hb src.h y))
            (mirror bx src.w x)
          ≡ some p)
  mirrored bx hb x y p q =
      let (x', (e, p')) = mirror-some bx src.w x p in
      let (y', (f, q')) = mirror-some hb src.h y q in
      let (k, g) = get_pixel-some src x' y' whole p' q' in (k, rw e (rw f g))

  module _ (hint : Hint) where
    hint_some :
        (hx hy : ℕ)
        → hx < logical_w src hint
        → hy < logical_h src hint
        → (p : ℕ) × (read_hint src hint hx hy ≡ some p)
    hint_some hx hy p q = elim (Bool-cases hint.transpose) [
      | inl e ↦
          let p' : hx < src.h = ground (arith, p, e) in
          let q' : hy < src.w = ground (arith, q, e) in
          rw e (mirrored hint.vflip hint.hmirror hy hx q' p')
      | inr e ↦
          let p' : hx < src.w = ground (arith, p, e) in
          let q' : hy < src.h = ground (arith, q, e) in
          rw e (mirrored hint.hmirror hint.vflip hx hy p' q')
    ]

    pub read_pixel-some :
        (self : Display) (lx ly : ℕ)
        → lx < logical_w src hint
        → ly < logical_h src hint
        → (p : ℕ) × (read_pixel src hint self lx ly ≡ some p)
    unfolding read_pixel
    read_pixel-some self lx ly p q =
        let (hx, (e, p')) = mirror-some self.hmirror (logical_w src hint) lx p in
        let (hy, (f, q')) = mirror-some self.vflip (logical_h src hint) ly q in
        let (k, g) = hint_some hx hy p' q' in (k, rw e (rw f g))

-- A word of the square for a pixel is in the buffer.
pub word-Inside :
    (w h : ℕ) (buffer : Buffer) (g : Geometry) (ox oy dx dy : ℕ)
    → Inside w h buffer g
    → buffer.width ≤ buffer.stride
    → ox < g.out_w
    → oy < g.out_h
    → dx < g.factor
    → dy < g.factor
    → word_at buffer g ox oy dx dy < buffer.stride * buffer.height
word-Inside w h buffer g ox oy dx dy v stride p q r s =
    let x : g.off_x + ox * g.factor + dx < buffer.stride =
      let a = index_in_range ox dx g.out_w g.factor p r in
      let b = v.wide in omega (arith, a, b, stride) in
    let y : g.off_y + oy * g.factor + dy < buffer.height =
      let a = index_in_range oy dy g.out_h g.factor q s in let b = v.high in omega (arith, a, b) in
    let z =
      index_in_range (g.off_y + oy * g.factor + dy) (g.off_x + ox * g.factor + dx) buffer.height
        buffer.stride y x in
    omega (arith, z)
