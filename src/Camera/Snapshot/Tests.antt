-- ===== src/Camera/Snapshot/Tests.antt =====
-- A snapshot of a camera of 2 × 1 pixels.
use upy_android.Prelude.{
  ℕ, ◌+◌, ◌*◌, ◌≡◌, ◌≢◌, refl, inl, inr, Bool, true, false, none, some, [], ◌∷◌, arith, ◌==◌,
  if◌then◌else◌,
}
use upy_android.Prelude.Raise.{returned}
use upy_android.Camera.{Camera, World, grayscale, opened, acquired, released}
use upy_android.Camera.Inv.{Inv, after}
use upy_android.Camera.Snapshot.{
  Frame, frame, no_frame, Imlib, Image, Answers, wait_frame, take_frame, with_block, snapshot,
  copy_pixels,
}
use upy_android.Camera.Snapshot.Frames.{IsGood, Given, upright, snapshot-upright}
use upy_android.Camera.Snapshot.Keeping.{snapshot_ends}

abbrev imlib : Imlib
imlib = record { image_size = λ fmt w h. w * h; pack = λ r g b. r }

-- The camera is open when `b` is.
abbrev camera : Bool → Camera
camera b = record {
  is_open = b;
  out_w = 1;
  out_h = 2;
  src_w = 2;
  src_h = 1;
  rotation = 90;
  pixfmt = grayscale;
  last_seq = 0;
  slots = λ i. 100 + i;
}

abbrev capacity : ℕ → ℕ
capacity a = 2

abbrev world : World
world = record { cameras = λ i. camera (i == 7); open_camera = some 7; log = opened ∷ [] }

world-Inv : Inv capacity world
unfolding after
world-Inv = record {
  core = record {
    one = λ i e. ground (arith, e);
    pointed = λ i e. ground (arith, e);
    in_order = refl;
  };
  ample = λ i s p q. omega arith;
}

abbrev newest : Frame
newest = record { slot = 1; width = 2; height = 1; rotation_degrees = 90; seq = 5 }

-- The frame comes in the second round.
abbrev answers : Answers
answers = record {
  malloc = λ size. some 1000;
  start = 0;
  rounds = λ k. record {
    acquire = λ seq. if k == 0 then no_frame else frame newest;
    interrupted = false;
    now = 80 * (k + 1);
  };
  memory = λ a. 8 ∷ 9 ∷ [];
}

abbrev image : Image
image = record {
  w = 1;
  h = 2;
  pixfmt = grayscale;
  raw = 1000;
  data_at = 1024;
  pixels = copy_pixels imlib (camera true) (8 ∷ 9 ∷ []);
}

abbrev world_after : World
world_after = record {
  cameras = λ i. if 7 == i then record (camera true) { last_seq = 5 } else camera (i == 7);
  open_camera = some 7;
  log = released ∷ acquired ∷ opened ∷ [];
}

snapshot_runs : snapshot imlib 7 answers 63 world ≡ some (returned image, world_after)
unfolding snapshot with_block wait_frame take_frame
snapshot_runs = refl

newest_only :
    (j : ℕ) (f : Frame)
    → (if j == 0 then no_frame else frame newest) ≡ frame f
    → IsGood imlib (camera true) f
newest_only j f e = ground (arith, e)

snapshot-upright_example :
    (f : Frame) × ((image.pixels ≡ some (upright imlib (camera true) (8 ∷ 9 ∷ [])))
      × (((world_after.cameras 7).last_seq ≡ f.seq) × Given imlib answers.rounds (camera true) f))
snapshot-upright_example =
    snapshot-upright imlib capacity 7 63 answers world image world_after world-Inv (inr (inl refl))
      (λ a. omega arith) newest_only snapshot_runs

snapshot_ends_example : snapshot imlib 7 answers 63 world ≢ none
snapshot_ends_example = snapshot_ends imlib 7 63 answers world (omega arith) (λ k. omega arith)
