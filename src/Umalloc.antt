-- ===== src/Umalloc.antt =====
-- native-bringup/my-overrides/openmv/umalloc_android.c: OpenMV's allocator over the C library's, which
-- is a parameter. An address is a number, 0 for NULL.
pub mod Failing
mod Tests
use upy_android.Prelude.{ℕ, ◌*◌, Bool, true, false, ◌==◌, ◌&&◌, not, if◌then◌else◌}
use upy_android.Prelude.Words.{null}

-- malloc, calloc and realloc of the C library, at one moment.
pub record Heap : Type 0 where
  pub malloc : ℕ → ℕ
  pub calloc : ℕ → ℕ → ℕ
  pub realloc : ℕ → ℕ → ℕ

-- An address, or the MemoryError that `uma_fail` raises.
pub data Result : Type 0 where
  address : ℕ → Result
  memory_error : Result

-- `uma_fail`
abbrev uma_fail : Result
uma_fail = memory_error

-- The check behind each call. `maybe` is the flag UMA_MAYBE.
abbrev pub checked : ℕ → ℕ → Bool → Result
checked p size maybe = if (p == null) && not (size == 0) && not maybe then uma_fail else address p

-- `uma_malloc`
pub uma_malloc : Heap → ℕ → Bool → Result
uma_malloc heap size maybe = checked (heap.malloc size) size maybe

-- `uma_calloc`
pub uma_calloc : Heap → ℕ → Bool → Result
uma_calloc heap size maybe = checked (heap.calloc 1 size) size maybe

-- `uma_realloc`
pub uma_realloc : Heap → ℕ → ℕ → Bool → Result
uma_realloc heap ptr size maybe = checked (heap.realloc ptr size) size maybe

-- `uma_malign`, which ignores the alignment.
pub uma_malign : Heap → ℕ → ℕ → Bool → Result
uma_malign heap size align maybe = checked (heap.malloc size) size maybe

-- `uma_avail`
pub uma_avail : ℕ
uma_avail = 256 * 1024 * 1024
