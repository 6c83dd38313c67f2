-- ===== src/Mjpeg/Tests.antt =====
-- A recording with a coder that counts what it is given.
use upy_android.Prelude.{
  ℕ, ◌+◌, ◌-◌, ◌/◌, ◌%◌, ◌^◌, ◌≡◌, refl, false, some, List, [], ◌∷◌, arith, length, ltb,
  if◌then◌else◌,
}
use upy_android.Prelude.Ints.{pos, negsuc}
use upy_android.Mjpeg.{Coder, Mjpeg, WriteArgs, us_avg}
use upy_android.Mjpeg.Timing.{Counts, record_all, last_time, timing}

abbrev tally : Coder ℕ ℕ
tally = record {
  file_open = some 0;
  file_size = λ f. f;
  mjpeg_open = λ f w h. f + 1;
  mjpeg_write = λ f w h frames bytes p quality channel alpha hint. record {
    frames = (frames + 1) % 2 ^ 32;
    bytes = bytes + p;
    fp = f + p;
    raises = false;
  };
  mjpeg_sync = λ f frames bytes us. f;
  mjpeg_close = λ f frames bytes us. f + 100;
}

tally-Counts : Counts tally
tally-Counts fp w h frames bytes p quality channel alpha hint = (refl, refl)

abbrev fresh : Mjpeg ℕ
fresh = record {
  frames = 0;
  bytes = 0;
  us_old = 0;
  us_total = 0;
  width = 320;
  height = 240;
  closed = false;
  fp = 1;
}

abbrev defaults : WriteArgs
defaults = record { channel = negsuc 0; alpha = pos 255; hint = pos 0; quality = pos 90 }

-- Three frames, 40 ms apart, the clock wrapping between the first two.
abbrev times : List ℕ
times = 4295007295 ∷ 4295047295 ∷ []

timing_example :
    let m' = record_all tally fresh defaults 500 (4294967295 ∷ times) in
    (m'.frames ≡ length times + 1)
    × (m'.us_total ≡ last_time 4294967295 times - 4294967295)
    × (us_avg tally m' ≡ (
        if ltb 0 (length times)
        then (last_time 4294967295 times - 4294967295) / length times % 2 ^ 32
        else 0))
timing_example =
    timing tally tally-Counts fresh defaults 500 4294967295 times (refl, refl, refl) refl refl refl
      (omega arith) (omega arith) (omega arith)
