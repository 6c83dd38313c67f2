-- ===== src/Gif/Tests.antt =====
-- A Gif of the camera's size, 320 by 240.
use upy_android.Prelude.{ℕ, ◌+◌, ◌≡◌, refl, true, some}
use upy_android.Prelude.Ints.{pos, negsuc}
use upy_android.Gif.{Picture, Coder, Gif, Camera, open_file}

abbrev tally : Coder ℕ ℕ
tally = record {
  file_open = some 0;
  file_size = λ f. f;
  gif_open = λ f w h color loop. f + 1;
  gif_add_frame = λ f image delay. f + image.rest;
  gif_close = λ f. f + 100;
  pixformat_jpeg = 3;
  pixformat_binary = 4;
  pixformat_rgb565 = 1;
  pixformat_grayscale = 2;
}

abbrev camera : Camera
camera = record { width = pos 320; height = pos 240; color = true }

abbrev opened : Gif ℕ
opened = record { width = 320; height = 240; color = true; loop = true; fp = 1 }

abbrev colored : Picture ℕ
colored = record { w = pos 320; h = pos 240; pixfmt = 1; rest = 50 }

opens : open_file tally (λ n. true) camera (negsuc 0) (negsuc 0) (negsuc 0) (pos 1) ≡ some opened
unfolding open_file
opens = refl
