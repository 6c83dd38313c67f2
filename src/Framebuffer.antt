-- ===== src/Framebuffer.antt =====
-- native-bringup/my-overrides/openmv/framebuffer.c and framebuffer.h: the buffers of a camera, which
-- go round between a queue of free ones and a queue of used ones.
pub mod Layout
pub mod Inv
pub mod Resize
pub mod Release
pub mod Views
mod Tests
use upy_android.Prelude.{
  ℕ, zero, suc, ◌+◌, ◌-◌, ◌*◌, ◌≤◌, ◌<◌, ◌≡◌, ◌%◌, ◌^◌, Bool, true, false, Option, none, some, ltb,
  leb, ◌==◌, ◌&&◌, if◌then◌else◌, not,
}
use upy_android.Prelude.Words.{add_size, sub_size, mul_size, null, update, size_mod}
use upy_android.Queue
use upy_android.Queue.{Queue, Buffer, calc_size}
use upy_android.Mutex.{Mutex, init0}

-- What the vendored headers give: OMV_CACHE_LINE_SIZE, OMV_ALIGN_TO (rounding up to a multiple),
-- the size of `vbuffer_t` up to its data, and PIXFORMAT_INVALID.
pub record Platform : Type 0 where
  pub alignment : ℕ
  pub align_to : ℕ → ℕ → ℕ
  pub align_to-ge : (n : ℕ) → n + alignment < size_mod → n ≤ align_to n alignment
  pub align_to-lt : (n : ℕ) → n + alignment < size_mod → align_to n alignment < n + alignment
  pub align_to-mod : (n : ℕ) → n + alignment < size_mod → align_to n alignment % alignment ≡ 0
  pub sizeof_vbuffer : ℕ
  pub pixformat_invalid : ℕ

-- The header of a `vbuffer_t`.
pub record VBuffer : Type 0 where
  pub offset : ℕ
  pub flags : ℕ

-- `framebuffer_t`, and the headers of the buffers by their addresses. Fields that this file only
-- zeroes are left out.
pub record Framebuffer : Type 0 where
  pub w : ℕ
  pub h : ℕ
  pub size : ℕ
  pub pixfmt : ℕ
  pub dynamic : Bool
  pub enabled : Bool
  pub raw_w : ℕ
  pub raw_h : ℕ
  pub raw_enabled : Bool
  pub raw_size : ℕ
  pub raw_base : ℕ
  pub buf_size : ℕ
  pub buf_count : ℕ
  pub lock : Mutex
  pub used_queue : Option Queue
  pub free_queue : Option Queue
  pub vbuffers : ℕ → VBuffer

-- `image_t`, as far as this file sets it.
pub record Image : Type 0 where
  pub w : ℕ
  pub h : ℕ
  pub size : ℕ
  pub pixfmt : ℕ
  pub pixels : ℕ

-- The flags of `framebuffer_flags_t` that the code reads.
pub record Flags : Type 0 where
  pub used : Bool
  pub peek : Bool
  pub check_last : Bool

-- `framebuffer_init`, with OMV_RAW_PREVIEW_ENABLE not set.
pub init : (ℕ → VBuffer) → ℕ → ℕ → Bool → Bool → Framebuffer
init memory buff size dynamic enabled = record {
  w = 0;
  h = 0;
  size = 0;
  pixfmt = 0;
  dynamic = dynamic;
  enabled = enabled;
  raw_w = 0;
  raw_h = 0;
  raw_enabled = false;
  raw_size = size;
  raw_base = buff;
  buf_size = 0;
  buf_count = 0;
  lock = init0;
  used_queue = none;
  free_queue = none;
  vbuffers = memory;
}

-- `framebuffer_get`: whether the one live instance is returned. FB_MAINFB_ID is 0.
pub get : ℕ → Bool
get id = id == 0

-- `framebuffer_acquire`
pub acquire : Framebuffer → Flags → ℕ × Framebuffer
acquire fb flags =
    if flags.used
    then (
      (Queue.pop fb.used_queue flags.peek).0,
      record fb { used_queue = (Queue.pop fb.used_queue flags.peek).1 },
    )
    else (
      (Queue.pop fb.free_queue flags.peek).0,
      record fb { free_queue = (Queue.pop fb.free_queue flags.peek).1 },
    )

-- The data of a buffer, behind its header.
abbrev pub data_of : Platform → ℕ → ℕ
data_of pf buffer = if buffer == null then null else buffer + pf.sizeof_vbuffer

-- `framebuffer_to_image` with an image.
pub to_image : Platform → Framebuffer → Image
unfolding acquire
to_image pf fb = record {
  w = fb.w;
  h = fb.h;
  size = fb.size;
  pixfmt = fb.pixfmt;
  pixels = elim fb.used_queue [
    | none ↦ fb.raw_base
    | some q ↦ data_of pf (acquire fb (record { used = true; peek = true; check_last = false })).0
  ];
}

-- `framebuffer_from_image`
pub from_image : Platform → Framebuffer → Option Image → Framebuffer
from_image pf fb none = record fb { w = 0; h = 0; size = 0; pixfmt = pf.pixformat_invalid }
from_image pf fb (some img) = record fb {
  w = img.w;
  h = img.h;
  size = img.size;
  pixfmt = img.pixfmt;
}

-- `framebuffer_pool_start`. A `size_t` wraps; a pointer stays inside an object, where C defines its sum at all.
pub pool_start : Platform → Framebuffer → ℕ → ℕ
pool_start pf fb buf_count =
    let qsize = if leb buf_count 3 then 0 else calc_size buf_count in
    fb.raw_base + pf.align_to (mul_size qsize 2) pf.alignment

-- The size of a buffer with its header.
abbrev pub stride : Platform → Framebuffer → ℕ
stride pf fb = add_size fb.buf_size pf.sizeof_vbuffer

-- `framebuffer_pool_end`
pub pool_end : Platform → Framebuffer → ℕ
pool_end pf fb = pool_start pf fb fb.buf_count + mul_size (stride pf fb) fb.buf_count

-- A `size_t` that is passed as an `int32_t`, and is a factor of a `size_t` product then.
abbrev pub as_int32 : ℕ → ℕ
as_int32 n = let m = n % 2 ^ 32 in if ltb m (2 ^ 31) then m else 2 ^ 64 - 2 ^ 32 + m

-- `framebuffer_pool_get`
pub pool_get : Platform → Framebuffer → ℕ → ℕ
pool_get pf fb index = pool_start pf fb fb.buf_count + mul_size (stride pf fb) (as_int32 index)

-- `framebuffer_reset`
pub reset : Framebuffer → ℕ → Framebuffer
reset fb buffer = record fb {
  vbuffers = update fb.vbuffers buffer (record { offset = 0; flags = 0 });
}

-- One round of the loop of `framebuffer_flush`.
pub refill : Platform → Framebuffer → ℕ → Framebuffer
unfolding reset pool_get
refill pf fb i =
    let fb' = reset fb (pool_get pf fb i) in
    record fb' { free_queue = (Queue.push fb'.free_queue (pool_get pf fb i)).1 }

-- The loop, from index `i` on, for `n` rounds.
pub refill_all : Platform → Framebuffer → ℕ → ℕ → Framebuffer
unfolding refill
refill_all pf fb i zero = fb
refill_all pf fb i (suc n) = refill_all pf (refill pf fb i) (suc i) n

-- `framebuffer_flush`
pub flush : Platform → Framebuffer → Framebuffer
unfolding refill_all
flush pf fb =
    let invalid = record fb { pixfmt = pf.pixformat_invalid } in
    let emptied = if fb.buf_count == 0 then invalid else record invalid {
      free_queue = Queue.flush fb.free_queue;
      used_queue = Queue.flush fb.used_queue;
    } in
    refill_all pf emptied 0 fb.buf_count

-- The sizes that `framebuffer_resize` computes.
abbrev pub aligned_size : Platform → ℕ → ℕ
aligned_size pf frame_size = pf.align_to (add_size frame_size pf.sizeof_vbuffer) pf.alignment

abbrev pub min_size : Platform → ℕ → ℕ → ℕ
min_size pf count frame_size =
    add_size (mul_size (aligned_size pf frame_size) count) (mul_size (calc_size count) 2)

-- What a pointer to a queue holds after `queue_init` through its address.
abbrev pub init_queue : Option Queue → ℕ → Buffer → Option Queue
init_queue old count memory = elim (Queue.init (some old) count (some memory)) [
  | none ↦ old
  | some q ↦ q
]

-- The part of `framebuffer_resize` past its checks. The queues' memory holds what it held.
pub set_up : Platform → Buffer → Buffer → Framebuffer → ℕ → ℕ → Framebuffer
unfolding flush
set_up pf memory0 memory1 fb count frame_size = flush pf (record fb {
  buf_count = count;
  buf_size = sub_size (aligned_size pf frame_size) pf.sizeof_vbuffer;
  free_queue = init_queue fb.free_queue count memory0;
  used_queue = init_queue fb.used_queue count memory1;
})

-- The part of `framebuffer_resize` from the check of the size on; `true` for 0, `false` for -1.
pub check_size : Platform → Buffer → Buffer → Framebuffer → ℕ → ℕ → Bool × Framebuffer
unfolding set_up
check_size pf memory0 memory1 fb count frame_size =
    if ltb fb.raw_size (min_size pf count frame_size)
    then (false, fb)
    else (true, set_up pf memory0 memory1 fb count frame_size)

-- `framebuffer_resize`. `malign` is `uma_malign` with UMA_MAYBE: the address of a block of that many
-- bytes, or NULL.
pub resize : Platform → (ℕ → ℕ) → Buffer → Buffer → Framebuffer → ℕ → ℕ → Bool × Framebuffer
unfolding check_size
resize pf malign memory0 memory1 fb count frame_size =
    if fb.dynamic
    then (let raw_base = malign (min_size pf count frame_size) in
        if raw_base == null
        then (false, record fb { raw_base = null })
        else check_size pf memory0 memory1
            (record fb { raw_size = min_size pf count frame_size; raw_base = raw_base }) count
            frame_size)
    else check_size pf memory0 memory1 fb count frame_size

-- `framebuffer_writable` and `framebuffer_readable`
pub writable : Framebuffer → Bool
writable fb = not (Queue.is_empty fb.free_queue)

pub readable : Framebuffer → Bool
readable fb = not (Queue.is_empty fb.used_queue)

-- The last part of `framebuffer_release`: move the oldest buffer from one queue to the other.
pub move : Platform → Framebuffer → Flags → ℕ × Framebuffer
unfolding acquire reset
move pf fb flags =
    let (buffer, fb') = acquire fb flags in
    if buffer == null
    then (null, fb')
    else if flags.used
    then (let fb'' = reset (record fb' { pixfmt = pf.pixformat_invalid }) buffer in
        (buffer, record fb'' { free_queue = (Queue.push fb''.free_queue buffer).1 }))
    else (buffer, record fb' { used_queue = (Queue.push fb'.used_queue buffer).1 })

-- The swap of the triple buffer; `none` where `queue_swap` would follow a NULL pointer.
pub swap_last : Framebuffer → Option (ℕ × Framebuffer)
unfolding reset
swap_last fb = elim fb.used_queue [
  | none ↦ none
  | some used ↦ elim fb.free_queue [
    | none ↦ none
    | some free ↦
        let (buffer, used', free') = Queue.swap used free in
        some (null, reset (record fb { used_queue = some used'; free_queue = some free' }) buffer)
  ]
]

-- `framebuffer_release`
pub release : Platform → Framebuffer → Flags → Option (ℕ × Framebuffer)
unfolding move swap_last
release pf fb flags =
    if flags.check_last && (Queue.size fb.free_queue == 1)
    then (if fb.buf_count == 2
        then some (null, reset fb (Queue.pop fb.free_queue true).0)
        else if fb.buf_count == 3
        then swap_last fb
        else some (move pf fb flags))
    else some (move pf fb flags)
