-- ===== src/Framebuffer/Tests.antt =====
-- The frame buffer on concrete inputs.
use upy_android.Prelude.{
  ℕ, ◌+◌, ◌*◌, ◌/◌, ◌%◌, ◌≤◌, ◌<◌, ◌≡◌, ◌≢◌, refl, true, false, List, [], arith, ◌⊎◌,
}
use upy_android.Prelude.Words.{null}
use upy_android.Queue.{Buffer, calc_size}
use upy_android.Framebuffer.{
  Platform, Framebuffer, VBuffer, Flags, init, min_size, resize, release, pool_end, pool_get,
  pool_start,
}
use upy_android.Framebuffer.Inv.{addresses}
use upy_android.Framebuffer.Layout.{Fits, Laid, queues_size}
use upy_android.Framebuffer.Resize.{Ready, resize_dynamic, resize_fails, resize_overruns}
use upy_android.Framebuffer.Release.{Returns, released, release_refines}

-- Cache lines of 32 bytes, headers of 32 bytes.
abbrev round_up : ℕ → ℕ → ℕ
round_up n a = (n + 31) / 32 * 32

lines_of_32 : (n : ℕ) → (n ≤ round_up n 32) × (round_up n 32 < n + 32) × (round_up n 32 % 32 ≡ 0)
lines_of_32 n = (omega arith, omega arith, omega arith)

abbrev platform : Platform
platform = record {
  alignment = 32;
  align_to = round_up;
  align_to-ge = λ n h. (lines_of_32 n).0;
  align_to-lt = λ n h. (lines_of_32 n).1;
  align_to-mod = λ n h. (lines_of_32 n).2;
  sizeof_vbuffer = 32;
  pixformat_invalid = 0;
}

-- 640 by 480 pixels of one byte.
abbrev frame : ℕ
frame = 307200

abbrev granting : ℕ → ℕ
granting n = 4096

abbrev refusing : ℕ → ℕ
refusing n = null

abbrev garbage : Buffer
garbage = record { head_word = 5; tail_word = 9; cells = λ i. 7 }

abbrev headers : ℕ → VBuffer
headers a = record { offset = 1; flags = 1 }

abbrev fresh : Framebuffer
fresh = init headers null 0 true true

fresh-dynamic : fresh.dynamic ≡ true
unfolding init
fresh-dynamic = refl

fits : (n : ℕ) → n < 100 → Fits platform n frame
fits n h = record {
  count_small = omega arith;
  size_small = omega arith;
  product_small = omega arith;
}

resize_dynamic_example :
    let (ok, fb') = resize platform granting garbage garbage fresh 3 frame in
    let size = min_size platform 3 frame in
    (ok ≡ true)
    × Ready platform (record fresh { raw_base = 4096; raw_size = size; buf_size = 307200 }) 3 fb'
    × ((i : ℕ) → i < 3 → pool_get platform fb' i ≡ pool_start platform fb' 3 + 307232 * i)
resize_dynamic_example =
    resize_dynamic platform granting garbage garbage fresh 3 frame fresh-dynamic (omega arith)
      (omega arith) (fits 3 (omega arith))

refused : (resize platform refusing garbage garbage fresh 3 frame).0 ≡ false
unfolding resize init
refused = refl

resize_fails_example :
    let (ok, fb') = resize platform refusing garbage garbage fresh 3 frame in
    ((fresh.dynamic ≡ true)
      × (refusing (min_size platform 3 frame) ≡ null)
      × (fb' ≡ record fresh { raw_base = null }))
    ⊎ ((fresh.dynamic ≡ false) × (fresh.raw_size < min_size platform 3 frame) × (fb' ≡ fresh))
resize_fails_example = resize_fails platform refusing garbage garbage fresh 3 frame refused

-- Frame buffers with three and with five buffers, as `framebuffer_resize` leaves them.
abbrev with_buffers : ℕ → Framebuffer
with_buffers n = record fresh {
  raw_base = 4096;
  raw_size = min_size platform n frame;
  buf_count = n;
  buf_size = 307200;
}

abbrev from_oldest : Flags
from_oldest = record { used = false; peek = false; check_last = true }

abbrev resized : Framebuffer
resized = (resize platform granting garbage garbage fresh 3 frame).1

abbrev all_free : List ℕ × List ℕ
all_free = (addresses platform resized 0 3, [])

release_refines_example :
    Returns (release platform resized from_oldest) (released from_oldest resized.buf_count all_free)
release_refines_example =
    release_refines platform resized from_oldest all_free refl
      (λ c one three. absurd (omega (arith, one))) resize_dynamic_example.1.owns

laid : (n : ℕ) → Laid platform (with_buffers n) n frame
laid n = record { counted = refl; sized = refl; block = refl }

padded : queues_size 5 % 32 ≢ 0
unfolding calc_size
padded = omega arith

resize_overruns_example :
    let (ok, fb') = resize platform granting garbage garbage fresh 5 frame in
    (ok ≡ true) × (fb'.raw_base + fb'.raw_size < pool_end platform fb')
resize_overruns_example =
    resize_overruns platform granting garbage garbage fresh 5 frame fresh-dynamic (omega arith)
      (fits 5 (omega arith)) (omega arith) padded

-- The frame buffer after that release: one buffer is used.
abbrev one_used : Framebuffer
one_used = release_refines_example.result.1

abbrev lists : List ℕ × List ℕ
lists = (released from_oldest resized.buf_count all_free).1
