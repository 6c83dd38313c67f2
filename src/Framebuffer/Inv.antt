-- ===== src/Framebuffer/Inv.antt =====
-- Who owns the buffers: the free queue, the used queue, or the client that acquired one.
use upy_android.Prelude.{ℕ, zero, suc, ◌+◌, ◌≤◌, ◌≡◌, ◌≢◌, refl, List, [], ◌∷◌, ◌++◌, arith, length}
use upy_android.Prelude.Words.{null}
use upy_android.Queue.Moves.{Holds}
use upy_android.Framebuffer.{Platform, Framebuffer, pool_start, pool_get}

abbrev pub NonNull : List ℕ → Type 0
NonNull [] = Unit {0}
NonNull (x ∷ xs) = (x ≢ null) × NonNull xs

pub NonNull-append : (xs ys : List ℕ) → NonNull xs → NonNull ys → NonNull (xs ++ ys)
NonNull-append [] ys h k = k
NonNull-append (x ∷ xs) ys h k = (h.0, NonNull-append xs ys h.1 k)

-- The queues hold these buffers, and are long enough for every buffer.
pub record Owns (fb : Framebuffer) (frees useds : List ℕ) : Type 0 where
  pub free : Holds fb.free_queue fb.buf_count frees
  pub used : Holds fb.used_queue fb.buf_count useds
  pub free_buffers : NonNull frees
  pub used_buffers : NonNull useds
  pub room : length frees + length useds ≤ fb.buf_count

-- The buffers of the pool from index `i` on.
abbrev pub addresses : Platform → Framebuffer → ℕ → ℕ → List ℕ
addresses pf fb i zero = []
addresses pf fb i (suc n) = pool_get pf fb i ∷ addresses pf fb (suc i) n

pub length-addresses :
    (pf : Platform) (fb : Framebuffer) (i n : ℕ) → length (addresses pf fb i n) ≡ n
length-addresses pf fb i zero = refl
length-addresses pf fb i (suc n) = omega (arith, length-addresses pf fb (suc i) n)

pub pool_get-ne-null :
    (pf : Platform) (fb : Framebuffer) (i : ℕ) → fb.raw_base ≢ null → pool_get pf fb i ≢ null
unfolding pool_get pool_start
pool_get-ne-null pf fb i h = omega arith

pub addresses-NonNull :
    (pf : Platform) (fb : Framebuffer) (i n : ℕ)
    → fb.raw_base ≢ null
    → NonNull (addresses pf fb i n)
addresses-NonNull pf fb i zero h = tt
addresses-NonNull pf fb i (suc n) h =
    (pool_get-ne-null pf fb i h, addresses-NonNull pf fb (suc i) n h)
