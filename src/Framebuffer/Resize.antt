-- ===== src/Framebuffer/Resize.antt =====
-- What `framebuffer_resize` leaves.
use upy_android.Prelude.{
  either, ℕ, zero, suc, ◌+◌, ◌-◌, ◌*◌, ◌^◌, ◌%◌, ◌≤◌, ◌<◌, ◌≡◌, ◌≢◌, refl, sym, ap, ◌∙◌, Bool, true,
  false, Option, List, [], ◌∷◌, ◌++◌, ◌⊎◌, arith, length, length-append, append_assoc, append-nil,
  ◌==◌,
}
use mathlib.Core.Path.{subst}
use upy_android.Prelude.Words.{null, size_mod, sub_size}
use upy_android.Queue
use upy_android.Queue.{Queue, Buffer, calc_size}
use upy_android.Queue.Moves.{Holds, push-Holds, flush_live-Holds, flush-Holds}
use upy_android.Framebuffer.{
  Platform, Framebuffer, refill, refill_all, init_queue, set_up, check_size, resize, pool_get,
  pool_end, pool_start, min_size, aligned_size,
}
use upy_android.Framebuffer.Inv.{
  Owns, NonNull, addresses, length-addresses, pool_get-ne-null, addresses-NonNull,
}
use upy_android.Framebuffer.Layout.{
  Fits, Laid, pool_overruns, pool_inside, queues_size, aligned_size-lt, pool_get_lem,
}

-- What the refilling of the free queue leaves alone.
pub record Same (fb fb' : Framebuffer) : Type 0 where
  pub used_queue : fb'.used_queue ≡ fb.used_queue
  pub buf_count : fb'.buf_count ≡ fb.buf_count
  pub buf_size : fb'.buf_size ≡ fb.buf_size
  pub raw_base : fb'.raw_base ≡ fb.raw_base
  pub raw_size : fb'.raw_size ≡ fb.raw_size
  pub pixfmt : fb'.pixfmt ≡ fb.pixfmt

refill-Same : (pf : Platform) (fb : Framebuffer) (i : ℕ) → Same fb (refill pf fb i)
unfolding refill
refill-Same pf fb i = record {
  used_queue = refl;
  buf_count = refl;
  buf_size = refl;
  raw_base = refl;
  raw_size = refl;
  pixfmt = refl;
}

refill_all-Same : (pf : Platform) (fb : Framebuffer) (i n : ℕ) → Same fb (refill_all pf fb i n)
unfolding refill_all
refill_all-Same pf fb i zero = record {
  used_queue = refl;
  buf_count = refl;
  buf_size = refl;
  raw_base = refl;
  raw_size = refl;
  pixfmt = refl;
}
refill_all-Same pf fb i (suc n) =
    let ih = refill_all-Same pf (refill pf fb i) (suc i) n in
    record {
      used_queue = ih.used_queue;
      buf_count = ih.buf_count;
      buf_size = ih.buf_size;
      raw_base = ih.raw_base;
      raw_size = ih.raw_size;
      pixfmt = ih.pixfmt;
    }

addresses-refill :
    (pf : Platform) (fb : Framebuffer) (i k n : ℕ)
    → addresses pf (refill pf fb i) k n ≡ addresses pf fb k n
unfolding refill pool_start
addresses-refill pf fb i k zero = refl
addresses-refill pf fb i k (suc n) =
    ap (λ xs. pool_get pf fb k ∷ xs) (addresses-refill pf fb i (suc k) n)

refill-Holds :
    (pf : Platform) (fb : Framebuffer) (i capacity : ℕ) (xs : List ℕ)
    → fb.raw_base ≢ null
    → Holds fb.free_queue capacity xs
    → length xs < capacity
    → Holds (refill pf fb i).free_queue capacity (xs ++ pool_get pf fb i ∷ [])
unfolding refill
refill-Holds pf fb i capacity xs base h room =
    push-Holds (pool_get pf fb i) h (pool_get-ne-null pf fb i base) room

refill_all-Holds :
    (pf : Platform) (n : ℕ) (fb : Framebuffer) (i capacity : ℕ) (xs : List ℕ)
    → fb.raw_base ≢ null
    → Holds fb.free_queue capacity xs
    → length xs + n ≤ capacity
    → Holds (refill_all pf fb i n).free_queue capacity (xs ++ addresses pf fb i n)
unfolding refill_all refill
refill_all-Holds pf zero fb i capacity xs base h room =
    subst (Holds fb.free_queue capacity) (sym (append-nil xs)) h
refill_all-Holds pf (suc n) fb i capacity xs base h room =
    subst (Holds (refill_all pf (refill pf fb i) (suc i) n).free_queue capacity)
      (append_assoc xs (pool_get pf fb i ∷ []) (addresses pf (refill pf fb i) (suc i) n)
        ∙ ap (λ ys. xs ++ (pool_get pf fb i ∷ ys)) (addresses-refill pf fb i (suc i) n))
      (refill_all-Holds pf n (refill pf fb i) (suc i) capacity (xs ++ pool_get pf fb i ∷ []) base
        (refill-Holds pf fb i capacity xs base h (omega arith))
        (omega (arith, length-append xs (pool_get pf fb i ∷ []))))

addresses-refill_all :
    (pf : Platform) (fb : Framebuffer) (i n k m : ℕ)
    → addresses pf (refill_all pf fb i n) k m ≡ addresses pf fb k m
unfolding refill_all
addresses-refill_all pf fb i zero k m = refl
addresses-refill_all pf fb i (suc n) k m =
    addresses-refill_all pf (refill pf fb i) (suc i) n k m ∙ addresses-refill pf fb i k m

-- A queue that was just initialised.
init_queue-Holds :
    (old : Option Queue) (count : ℕ) (memory : Buffer)
    → count < size_mod - 1
    → Holds (init_queue old count memory) count []
unfolding Queue.init
init_queue-Holds old count memory small =
    flush_live-Holds
      (record {
        capacity = count;
        head = memory.head_word;
        tail = memory.tail_word;
        items = memory.cells;
      })
      small

-- The refilling of two empty queues.
refill_all-Owns :
    (pf : Platform) (fb : Framebuffer)
    → fb.raw_base ≢ null
    → Holds fb.free_queue fb.buf_count []
    → Holds fb.used_queue fb.buf_count []
    → let fb' = refill_all pf fb 0 fb.buf_count in Owns fb' (addresses pf fb' 0 fb.buf_count) []
refill_all-Owns pf fb base free used =
    let fb' = refill_all pf fb 0 fb.buf_count in
    let same = refill_all-Same pf fb 0 fb.buf_count in
    let listed = addresses-refill_all pf fb 0 fb.buf_count 0 fb.buf_count in
    record {
      free =
          subst (λ c. Holds fb'.free_queue c (addresses pf fb' 0 fb.buf_count)) (sym same.buf_count)
            (subst (Holds fb'.free_queue fb.buf_count) (sym listed)
              (refill_all-Holds pf fb.buf_count fb 0 fb.buf_count [] base free (omega arith)));
      used =
          subst (λ c. Holds fb'.used_queue c []) (sym same.buf_count)
            (subst (λ p. Holds p fb.buf_count []) (sym same.used_queue) used);
      free_buffers = subst NonNull (sym listed) (addresses-NonNull pf fb 0 fb.buf_count base);
      used_buffers = tt;
      room = omega (arith, same.buf_count, length-addresses pf _ 0 fb.buf_count);
    }

-- What `framebuffer_resize` has set before it flushes, with the format that the flush sets.
abbrev prepared : Platform → Buffer → Buffer → Framebuffer → ℕ → ℕ → Framebuffer
prepared pf m0 m1 fb count frame_size = record fb {
  pixfmt = pf.pixformat_invalid;
  buf_count = count;
  buf_size = sub_size (aligned_size pf frame_size) pf.sizeof_vbuffer;
  free_queue = init_queue fb.free_queue count m0;
  used_queue = init_queue fb.used_queue count m1;
}

-- A frame buffer with `count` buffers, all of them free.
pub record Ready (pf : Platform) (old : Framebuffer) (count : ℕ) (fb : Framebuffer) : Type 0 where
  pub raw_base : fb.raw_base ≡ old.raw_base
  pub raw_size : fb.raw_size ≡ old.raw_size
  pub buf_size : fb.buf_size ≡ old.buf_size
  pub buf_count : fb.buf_count ≡ count
  pub pixfmt : fb.pixfmt ≡ pf.pixformat_invalid
  pub owns : Owns fb (addresses pf fb 0 count) []

refill_all-Ready :
    (pf : Platform) (fb : Framebuffer)
    → fb.raw_base ≢ null
    → fb.pixfmt ≡ pf.pixformat_invalid
    → Holds fb.free_queue fb.buf_count []
    → Holds fb.used_queue fb.buf_count []
    → Ready pf fb fb.buf_count (refill_all pf fb 0 fb.buf_count)
refill_all-Ready pf fb base invalid free used =
    let same = refill_all-Same pf fb 0 fb.buf_count in
    record {
      raw_base = same.raw_base;
      raw_size = same.raw_size;
      buf_size = same.buf_size;
      buf_count = same.buf_count;
      pixfmt = same.pixfmt ∙ invalid;
      owns = refill_all-Owns pf fb base free used;
    }

set_up-Ready :
    (pf : Platform) (m0 m1 : Buffer) (fb : Framebuffer) (count frame_size : ℕ)
    → count < size_mod - 1
    → fb.raw_base ≢ null
    → Ready pf
        (record fb { buf_size = sub_size (aligned_size pf frame_size) pf.sizeof_vbuffer })
        count
        (set_up pf m0 m1 fb count frame_size)
unfolding set_up
set_up-Ready pf m0 m1 fb count frame_size small base =
    let first = prepared pf m0 m1 fb count frame_size in
    let emptied = record first {
      free_queue = Queue.flush first.free_queue;
      used_queue = Queue.flush first.used_queue;
    } in
    let free = init_queue-Holds fb.free_queue count m0 small in
    let used = init_queue-Holds fb.used_queue count m1 small in
    either
      (λ f.
        Ready pf (record fb { buf_size = sub_size (aligned_size pf frame_size) pf.sizeof_vbuffer })
          count (refill_all pf f 0 count))
      (count == 0) first emptied
      (let r = refill_all-Ready pf first base refl free used in
        record {
          raw_base = r.raw_base;
          raw_size = r.raw_size;
          buf_size = r.buf_size;
          buf_count = r.buf_count;
          pixfmt = r.pixfmt;
          owns = r.owns;
        })
      (let r = refill_all-Ready pf emptied base refl (flush-Holds free) (flush-Holds used) in
        record {
          raw_base = r.raw_base;
          raw_size = r.raw_size;
          buf_size = r.buf_size;
          buf_count = r.buf_count;
          pixfmt = r.pixfmt;
          owns = r.owns;
        })

resize_granted :
    (pf : Platform) (malign : ℕ → ℕ) (m0 m1 : Buffer) (fb : Framebuffer) (count frame_size : ℕ)
    → fb.dynamic ≡ true
    → malign (min_size pf count frame_size) ≢ null
    → let size = min_size pf count frame_size in
      resize pf malign m0 m1 fb count frame_size ≡ (
        true,
        set_up pf m0 m1 (record fb { raw_base = malign size; raw_size = size }) count frame_size,
      )
unfolding resize check_size
resize_granted pf malign m0 m1 fb count frame_size dynamic there = ground arith

resize-Ready :
    (pf : Platform) (malign : ℕ → ℕ) (m0 m1 : Buffer) (fb : Framebuffer) (count frame_size : ℕ)
    → fb.dynamic ≡ true
    → malign (min_size pf count frame_size) ≢ null
    → count < size_mod - 1
    → let (ok, fb') = resize pf malign m0 m1 fb count frame_size in
      let size = min_size pf count frame_size in
      (ok ≡ true)
      × Ready pf
          (record fb {
            raw_base = malign size;
            raw_size = size;
            buf_size = sub_size (aligned_size pf frame_size) pf.sizeof_vbuffer;
          })
          count
          fb'
resize-Ready pf malign m0 m1 fb count frame_size dynamic there small =
    let size = min_size pf count frame_size in
    let granted = record fb { raw_base = malign size; raw_size = size } in
    subst
      (λ (r : Bool × Framebuffer).
        (r.0 ≡ true)
        × Ready pf
            (record granted { buf_size = sub_size (aligned_size pf frame_size) pf.sizeof_vbuffer })
            count r.1)
      (sym (resize_granted pf malign m0 m1 fb count frame_size dynamic there))
      (refl, set_up-Ready pf m0 m1 granted count frame_size small there)

-- A `framebuffer_resize` that fails was refused memory, and then has no block, or a static block is
-- too small, and then nothing changes. Either way the old queues and the old count stay.
pub resize_fails :
    (pf : Platform) (malign : ℕ → ℕ) (m0 m1 : Buffer) (fb : Framebuffer) (count frame_size : ℕ)
    → (resize pf malign m0 m1 fb count frame_size).0 ≡ false
    → let (ok, fb') = resize pf malign m0 m1 fb count frame_size in
      ((fb.dynamic ≡ true)
        × (malign (min_size pf count frame_size) ≡ null)
        × (fb' ≡ record fb { raw_base = null }))
      ⊎ ((fb.dynamic ≡ false) × (fb.raw_size < min_size pf count frame_size) × (fb' ≡ fb))
unfolding resize check_size
resize_fails pf malign m0 m1 fb count frame_size failed = ground arith

resize-Laid :
    (pf : Platform) (malign : ℕ → ℕ) (m0 m1 : Buffer) (fb : Framebuffer) (count frame_size : ℕ)
    → fb.dynamic ≡ true
    → malign (min_size pf count frame_size) ≢ null
    → Fits pf count frame_size
    → let (ok, fb') = resize pf malign m0 m1 fb count frame_size in
      (ok ≡ true) × Laid pf fb' count frame_size
resize-Laid pf malign m0 m1 fb count frame_size dynamic there f =
    let r =
      resize-Ready pf malign m0 m1 fb count frame_size dynamic there
        (omega (arith, f.count_small)) in
    let a = aligned_size-lt pf count frame_size f in
    (
      r.0,
      record {
        counted = r.1.buf_count;
        sized = omega (arith, r.1.buf_size, a.0, a.1);
        block = r.1.raw_size;
      },
    )

-- A resize of a dynamic frame buffer for which memory was found succeeds: the frame buffer has a
-- block of `min_size` bytes and `count` buffers of the aligned size, one behind the other from the start of the
-- pool, its format is invalid, its used queue is empty, and its free queue holds every buffer of the new pool, in
-- order. The count fits an `int32_t`, and no size wraps.
pub resize_dynamic :
    (pf : Platform) (malign : ℕ → ℕ) (m0 m1 : Buffer) (fb : Framebuffer) (count frame_size : ℕ)
    → fb.dynamic ≡ true
    → malign (min_size pf count frame_size) ≢ null
    → count < 2 ^ 31
    → Fits pf count frame_size
    → let (ok, fb') = resize pf malign m0 m1 fb count frame_size in
      let size = min_size pf count frame_size in
      (ok ≡ true)
      × Ready pf
          (record fb {
            raw_base = malign size;
            raw_size = size;
            buf_size = aligned_size pf frame_size - pf.sizeof_vbuffer;
          })
          count
          fb'
      × ((i : ℕ)
          → i < count
          → pool_get pf fb' i ≡ pool_start pf fb' count + aligned_size pf frame_size * i)
resize_dynamic pf malign m0 m1 fb count frame_size dynamic there small f =
    let r = resize-Ready pf malign m0 m1 fb count frame_size dynamic there (omega (arith, small)) in
    let l = (resize-Laid pf malign m0 m1 fb count frame_size dynamic there f).1 in
    let a = aligned_size-lt pf count frame_size f in
    let fb' = (resize pf malign m0 m1 fb count frame_size).1 in
    (
      r.0,
      record {
        raw_base = r.1.raw_base;
        raw_size = r.1.raw_size;
        buf_size = omega (arith, r.1.buf_size, a.0, a.1);
        buf_count = r.1.buf_count;
        pixfmt = r.1.pixfmt;
        owns = r.1.owns;
      },
      λ i p.
          let inside : aligned_size pf frame_size * i ≤ aligned_size pf frame_size * count =
            grind arith in
          pool_get_lem pf fb' i (aligned_size pf frame_size) (omega (arith, p, small)) l.sized
            (omega (arith, a.1)) (omega (arith, inside, f.product_small))
          ∙ ap (λ c. pool_start pf fb' c + aligned_size pf frame_size * i) r.1.buf_count,
    )

-- A bug: a `framebuffer_resize` to more than three buffers succeeds with a pool that ends behind the
-- block it allocated, whenever the size of the two queues is not a multiple of the alignment. The
-- frame buffer is dynamic, memory is found, and the sizes do not wrap.
pub resize_overruns :
    (pf : Platform) (malign : ℕ → ℕ) (m0 m1 : Buffer) (fb : Framebuffer) (count frame_size : ℕ)
    → fb.dynamic ≡ true
    → malign (min_size pf count frame_size) ≢ null
    → Fits pf count frame_size
    → 3 < count
    → queues_size count % pf.alignment ≢ 0
    → let (ok, fb') = resize pf malign m0 m1 fb count frame_size in
      (ok ≡ true) × (fb'.raw_base + fb'.raw_size < pool_end pf fb')
resize_overruns pf malign m0 m1 fb count frame_size dynamic there f many odd =
    let r = resize-Laid pf malign m0 m1 fb count frame_size dynamic there f in
    (r.0, pool_overruns pf _ count frame_size f r.1 many odd)

-- A `framebuffer_resize` to at most three buffers that finds memory has its whole pool inside the
-- block it allocated. The frame buffer is dynamic, and the sizes do not wrap.
pub resize_inside :
    (pf : Platform) (malign : ℕ → ℕ) (m0 m1 : Buffer) (fb : Framebuffer) (count frame_size : ℕ)
    → fb.dynamic ≡ true
    → malign (min_size pf count frame_size) ≢ null
    → Fits pf count frame_size
    → count ≤ 3
    → let (ok, fb') = resize pf malign m0 m1 fb count frame_size in
      (ok ≡ true)
      × (fb'.raw_base ≤ pool_start pf fb' fb'.buf_count)
      × (pool_end pf fb' ≤ fb'.raw_base + fb'.raw_size)
resize_inside pf malign m0 m1 fb count frame_size dynamic there f few =
    let r = resize-Laid pf malign m0 m1 fb count frame_size dynamic there f in
    let i = pool_inside pf _ count frame_size f r.1 few in (r.0, i.0, i.1)
