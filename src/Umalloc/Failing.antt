-- ===== src/Umalloc/Failing.antt =====
-- What a caller of `uma_malloc` and its kin must check.
use upy_android.Prelude.{ℕ, ◌≢◌, true, false, arith}
use upy_android.Prelude.Words.{null}
use upy_android.Umalloc.{
  Heap, address, memory_error, checked, uma_malloc, uma_calloc, uma_realloc, uma_malign,
}

checked-false : (p size : ℕ) → size ≢ 0 → checked p size false ≢ address null
checked-false p size some_size = ground arith

checked-true : (p size : ℕ) → checked p size true ≢ memory_error
checked-true p size = ground arith

-- For a size that is not 0: without UMA_MAYBE no call returns NULL, and with it no call raises.
pub null_or_error :
    (heap : Heap) (ptr size align : ℕ)
    → size ≢ 0
    → ((uma_malloc heap size false ≢ address null)
        × (uma_calloc heap size false ≢ address null)
        × (uma_realloc heap ptr size false ≢ address null)
        × (uma_malign heap size align false ≢ address null))
      × ((uma_malloc heap size true ≢ memory_error)
          × (uma_calloc heap size true ≢ memory_error)
          × (uma_realloc heap ptr size true ≢ memory_error)
          × (uma_malign heap size align true ≢ memory_error))
unfolding uma_malloc uma_calloc uma_realloc uma_malign
null_or_error heap ptr size align some_size = (
  (
    checked-false (heap.malloc size) size some_size,
    checked-false (heap.calloc 1 size) size some_size,
    checked-false (heap.realloc ptr size) size some_size,
    checked-false (heap.malloc size) size some_size,
  ),
  (
    checked-true (heap.malloc size) size,
    checked-true (heap.calloc 1 size) size,
    checked-true (heap.realloc ptr size) size,
    checked-true (heap.malloc size) size,
  ),
)
