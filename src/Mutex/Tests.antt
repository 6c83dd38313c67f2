-- ===== src/Mutex/Tests.antt =====
-- Thread 1 takes the mutex while thread 2 stays outside.
use upy_android.Prelude.{ℕ, ◌≡◌, ◌≢◌, refl, true, arith, ◌==◌, if◌then◌else◌}
use upy_android.Mutex.{init0, unlock}
use upy_android.Mutex.Threads.{
  Place, outside, flagged, inside, set_flag, store_tid, System, by_thread, Reach, start, then_step,
}
use upy_android.Mutex.Exclusion.{Holding, exclusion}

abbrev one_at : Place → ℕ → Place
one_at p t = if t == 1 then p else outside

one_at-other : (p q : Place) (other : ℕ) → other ≢ 1 → one_at p other ≡ one_at q other
one_at-other p q other ne = ground arith

abbrev flag_set : System
flag_set = record { mutex = record init0 { lock = true }; places = one_at flagged }

abbrev taken : System
taken = record { mutex = record init0 { lock = true; tid = 1 }; places = one_at inside }

flag_set-Reach : Reach flag_set
unfolding init0
flag_set-Reach = then_step start (by_thread 1 (set_flag refl) (λ other ne. ground arith))

taken-Reach : Reach taken
taken-Reach = then_step flag_set-Reach (by_thread 1 store_tid (one_at-other inside flagged))

exclusion_example :
    (Holding (taken.places 2) → ◌≡◌ {A = ℕ} 1 2)
    × (taken.places 1 ≡ inside → (unlock taken.mutex 1).0 ≡ true)
exclusion_example = exclusion 1 2 taken-Reach tt
