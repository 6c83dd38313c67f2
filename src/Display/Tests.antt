-- ===== src/Display/Tests.antt =====
-- A picture of two pixels on a small window.
use upy_android.Prelude.{◌≡◌, refl, false, true, [], ◌∷◌}
use upy_android.Display.{Display, Image, Hint, Buffer, Colors, grayscale, upscale_factor}

abbrev colors : Colors
colors = record { to_r8 = λ p. p; to_g8 = λ p. p; to_b8 = λ p. p }

abbrev plain : Display
plain = record { vflip = false; hmirror = true }

abbrev two_pixels : Image
two_pixels = record { w = 2; h = 1; pixfmt = grayscale; pixels = 5 ∷ 9 ∷ [] }

abbrev no_hint : Hint
no_hint = record { transpose = false; hmirror = false; vflip = false }

abbrev window : Buffer
window = record { width = 4; height = 3; stride = 5; bits = λ i. 7 }

twice : upscale_factor 2 1 4 3 ≡ 2
unfolding upscale_factor
twice = refl
