-- ===== src/Framebuffer/Layout.antt =====
-- Where the buffers lie in the memory of the frame buffer.
use upy_android.Prelude.{
  ℕ, ◌+◌, ◌*◌, ◌%◌, ◌^◌, ◌≤◌, ◌<◌, ◌≡◌, ◌≢◌, sym, ap, ◌∙◌, arith, leb, if◌then◌else◌, Bool-cases,
  inl, inr,
}
use mathlib.Core.Path.{ap₂}
use native.Mathlib.Nat.{mod-eq_of_lt}
use upy_android.Prelude.Words.{size_mod, mul_size, add_size}
use upy_android.Queue.{calc_size}
use upy_android.Framebuffer.{
  Platform, Framebuffer, pool_start, pool_get, pool_end, min_size, aligned_size, stride, as_int32,
}

-- The place of a buffer, where the index fits an `int32_t` and the sizes a `size_t`.
pub pool_get_lem :
    (pf : Platform) (fb : Framebuffer) (i size : ℕ)
    → i < 2 ^ 31
    → fb.buf_size + pf.sizeof_vbuffer ≡ size
    → size < size_mod
    → size * i < size_mod
    → pool_get pf fb i ≡ pool_start pf fb fb.buf_count + size * i
unfolding pool_get
pool_get_lem pf fb i size small e fits1 fits2 =
    let stride_is : stride pf fb ≡ size = omega (arith, e, fits1) in
    let index : as_int32 i ≡ i = ground (arith, small) in
    let product : mul_size (stride pf fb) (as_int32 i) ≡ size * i =
      ap₂ mul_size stride_is index ∙ mod-eq_of_lt fits2 in
    ap (λ n. pool_start pf fb fb.buf_count + n) product

-- The sizes at which no `size_t` product or sum of `framebuffer_resize` wraps.
pub record Fits (pf : Platform) (count frame_size : ℕ) : Type 0 where
  pub count_small : count < 2 ^ 32
  pub size_small : frame_size + pf.sizeof_vbuffer + pf.alignment < 2 ^ 62
  pub product_small : aligned_size pf frame_size * count < 2 ^ 63

-- A frame buffer as `framebuffer_resize` leaves it, in a block of `min_size` bytes.
pub record Laid (pf : Platform) (fb : Framebuffer) (count frame_size : ℕ) : Type 0 where
  pub counted : fb.buf_count ≡ count
  pub sized : fb.buf_size + pf.sizeof_vbuffer ≡ aligned_size pf frame_size
  pub block : fb.raw_size ≡ min_size pf count frame_size

no_wrap :
    (pf : Platform) (frame_size : ℕ)
    → frame_size + pf.sizeof_vbuffer + pf.alignment < 2 ^ 62
    → add_size frame_size pf.sizeof_vbuffer ≡ frame_size + pf.sizeof_vbuffer
no_wrap pf frame_size h = omega (arith, h)

-- The aligned size of a buffer, with its header, fits a word.
pub aligned_size-lt :
    (pf : Platform) (count frame_size : ℕ)
    → Fits pf count frame_size
    → (frame_size + pf.sizeof_vbuffer ≤ aligned_size pf frame_size)
      × (aligned_size pf frame_size < 2 ^ 63)
aligned_size-lt pf count frame_size f =
    let same = no_wrap pf frame_size f.size_small in
    let room : add_size frame_size pf.sizeof_vbuffer + pf.alignment < size_mod =
      omega (arith, same, f.size_small) in
    let ge = pf.align_to-ge (add_size frame_size pf.sizeof_vbuffer) room in
    let lt = pf.align_to-lt (add_size frame_size pf.sizeof_vbuffer) room in
    (omega (arith, same, ge), omega (arith, same, lt, f.size_small))

stride_lem :
    (pf : Platform) (fb : Framebuffer) (count frame_size : ℕ)
    → Fits pf count frame_size
    → Laid pf fb count frame_size
    → stride pf fb ≡ aligned_size pf frame_size
stride_lem pf fb count frame_size f l =
    let small = (aligned_size-lt pf count frame_size f).1 in omega (arith, l.sized, small)

align_to-zero : (pf : Platform) → pf.alignment < size_mod → pf.align_to 0 pf.alignment ≡ 0
align_to-zero pf h =
    let lt = pf.align_to-lt 0 (omega arith) in
    let small : pf.align_to 0 pf.alignment < pf.alignment = omega (arith, lt) in
    sym (mod-eq_of_lt small) ∙ pf.align_to-mod 0 (omega arith)

-- The two queues, as the pool starts behind them.
abbrev pub queues_size : ℕ → ℕ
queues_size count = 2 * calc_size count

calc_size_exact : (count : ℕ) → count < 2 ^ 32 → calc_size count ≡ 8 * count + 32
unfolding calc_size
calc_size_exact count h = omega arith

pool_start_lem :
    (pf : Platform) (fb : Framebuffer) (count : ℕ)
    → count < 2 ^ 32
    → pf.alignment < size_mod
    → pool_start pf fb count
      ≡ fb.raw_base + (if leb count 3 then 0 else pf.align_to (queues_size count) pf.alignment)
unfolding pool_start
pool_start_lem pf fb count small a = elim (Bool-cases (leb count 3)) [
  | inl few ↦ rw few (ap (λ n. fb.raw_base + n) (align_to-zero pf a))
  | inr many ↦
      let twice : mul_size (calc_size count) 2 ≡ queues_size count =
        omega (arith, calc_size_exact count small) in
      rw many (ap (λ n. fb.raw_base + pf.align_to n pf.alignment) twice)
]

-- Where the pool of a resized frame buffer ends. With at most three buffers the queues lie
-- elsewhere, and the room reserved for them stays free. With more, the queues are padded up to the
-- alignment, and the pool ends as far past the block as that padding goes.
pub pool_end_lem :
    (pf : Platform) (fb : Framebuffer) (count frame_size : ℕ)
    → Fits pf count frame_size
    → Laid pf fb count frame_size
    → pool_end pf fb + queues_size count
      ≡ fb.raw_base
        + fb.raw_size
        + (if leb count 3 then 0 else pf.align_to (queues_size count) pf.alignment)
unfolding pool_end
pool_end_lem pf fb count frame_size f l =
    let product : mul_size (stride pf fb) fb.buf_count ≡ aligned_size pf frame_size * count =
      ap₂ mul_size (stride_lem pf fb count frame_size f l) l.counted
      ∙ mod-eq_of_lt (omega (arith, f.product_small)) in
    let block : fb.raw_size ≡ aligned_size pf frame_size * count + queues_size count =
      omega (arith, l.block, calc_size_exact count f.count_small, f.product_small) in
    let start : pool_start pf fb fb.buf_count ≡ pool_start pf fb count =
      ap (pool_start pf fb) l.counted in
    omega (
      arith,
      product,
      block,
      start,
      pool_start_lem pf fb count f.count_small (omega (arith, f.size_small)),
    )

-- With at most three buffers the pool lies inside the block.
pub pool_inside :
    (pf : Platform) (fb : Framebuffer) (count frame_size : ℕ)
    → Fits pf count frame_size
    → Laid pf fb count frame_size
    → count ≤ 3
    → (fb.raw_base ≤ pool_start pf fb fb.buf_count) × (pool_end pf fb ≤ fb.raw_base + fb.raw_size)
unfolding pool_start
pool_inside pf fb count frame_size f l few =
    (omega arith, ground (arith, pool_end_lem pf fb count frame_size f l))

-- A bug: with more than three buffers, whenever the size of the two queues is not a multiple of the
-- alignment, the pool ends behind the block that `framebuffer_resize` allocated for it.
pub pool_overruns :
    (pf : Platform) (fb : Framebuffer) (count frame_size : ℕ)
    → Fits pf count frame_size
    → Laid pf fb count frame_size
    → 3 < count
    → queues_size count % pf.alignment ≢ 0
    → fb.raw_base + fb.raw_size < pool_end pf fb
pool_overruns pf fb count frame_size f l many odd =
    let n = queues_size count in
    let room : n + pf.alignment < size_mod =
      omega (arith, calc_size_exact count f.count_small, f.count_small, f.size_small) in
    let ge = pf.align_to-ge n room in
    let padded : pf.align_to n pf.alignment ≢ n =
      λ e. odd (ap (λ m. m % pf.alignment) (sym e) ∙ pf.align_to-mod n room) in
    ground (arith, pool_end_lem pf fb count frame_size f l, ge, padded)
