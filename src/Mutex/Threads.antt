-- ===== src/Mutex/Threads.antt =====
-- Threads at the atomic accesses of the mutex: `mutex_lock`, the two `mutex_try_lock` and
-- `mutex_unlock`, interleaved.
use upy_android.Prelude.{ℕ, ◌≡◌, ◌≢◌, true, false}
use upy_android.Mutex.{Mutex, init0}

-- Where a thread stands. In `mutex_lock` and in both `mutex_try_lock` it is `flagged` between the
-- successful test-and-set and the store of its tid; in `mutex_unlock` it is `matched` once the
-- stored tid was its own.
pub data Place : Type 0 where
  outside flagged inside matched : Place

-- One atomic access of the thread `tid`. Calls that fail leave it outside. A thread calls
-- `mutex_unlock` only where it holds the lock; this is the discipline of the callers.
pub data Access (tid : ℕ) (m : Mutex) : Place → Mutex → Place → Type 0 where
  busy : m.lock ≡ true → Access tid m outside m outside
  same_thread : m.tid ≡ tid → Access tid m outside m outside
  set_flag : m.lock ≡ false → Access tid m outside (record m { lock = true }) flagged
  store_tid : Access tid m flagged (record m { tid = tid }) inside
  match_tid : m.tid ≡ tid → Access tid m inside m matched
  other_tid : m.tid ≢ tid → Access tid m inside m inside
  clear_flag : Access tid m matched (record m { lock = false }) outside

-- The mutex and where each thread stands.
pub record System : Type 0 where
  pub mutex : Mutex
  pub places : ℕ → Place

pub data Step (s : System) : System → Type 0 where
  by_thread :
      (tid : ℕ) {m : Mutex} {places : ℕ → Place}
      → Access tid s.mutex (s.places tid) m (places tid)
      → ((other : ℕ) → other ≢ tid → places other ≡ s.places other)
      → Step s (record { mutex = m; places = places })

abbrev pub initial : System
initial = record { mutex = init0; places = λ tid. outside }

pub data Reach : System → Type 0 where
  start : Reach initial
  then_step : {s t : System} → Reach s → Step s t → Reach t
