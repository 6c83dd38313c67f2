-- ===== src/Umalloc/Tests.antt =====
-- A heap with no memory.
use upy_android.Prelude.Words.{null}
use upy_android.Umalloc.{Heap}

abbrev empty_heap : Heap
empty_heap = record { malloc = λ n. null; calloc = λ n m. null; realloc = λ p n. null }
