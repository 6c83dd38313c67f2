-- ===== src/Mutex.antt =====
-- native-bringup/my-overrides/openmv/mutex.c and mutex.h: a spin lock that remembers who took it
-- last. Each definition is one call that no other thread interrupts; `Mutex.Threads` interleaves
-- their atomic accesses.
pub mod Threads
pub mod Exclusion
mod Tests
use upy_android.Prelude.{ℕ, Bool, true, false, ◌==◌, if◌then◌else◌}

-- `mutex_t`
pub record Mutex : Type 0 where
  pub tid : ℕ
  pub lock : Bool

-- `mutex_init0`
pub init0 : Mutex
init0 = record { tid = 0; lock = false }

-- `mutex_get_tid`
pub get_tid : Mutex → ℕ
get_tid m = m.tid

-- `mutex_try_lock`
pub try_lock : Mutex → ℕ → Bool × Mutex
try_lock m tid = if m.lock then (false, m) else (true, record { tid = tid; lock = true })

-- `mutex_try_lock_fair`
pub try_lock_fair : Mutex → ℕ → Bool × Mutex
unfolding try_lock
try_lock_fair m tid = if m.tid == tid then (false, m) else try_lock m tid

-- `mutex_unlock`
pub unlock : Mutex → ℕ → Bool × Mutex
unlock m tid = if m.tid == tid then (true, record m { lock = false }) else (false, m)
