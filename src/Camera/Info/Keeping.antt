-- ===== src/Camera/Info/Keeping.antt =====
-- Reading the info of a camera keeps the state of the module in order.
use upy_android.Prelude.{ℕ, Bool-cases, inl, inr}
use upy_android.Camera.{World}
use upy_android.Camera.Inv.{Inv, close_impl-Inv}
use upy_android.Camera.Info.{Answer, failed, not_open, found, answered, ask}

module _ {A : Type 0} {capacity : ℕ → ℕ} where
  answered-Inv :
      (self : ℕ) (answer : Answer A) (w : World)
      → Inv capacity w
      → Inv capacity (answered self w answer).1
  answered-Inv self failed w v = v
  answered-Inv self not_open w v = close_impl-Inv self w v
  answered-Inv self (found x) w v = v

  pub ask-Inv :
      (self : ℕ) (answer : Answer A) (w : World)
      → Inv capacity w
      → Inv capacity (ask self answer w).1
  unfolding ask
  ask-Inv self answer w v = elim (Bool-cases (w.cameras self).is_open) [
    | inr c ↦ rw c v
    | inl o ↦ rw o (answered-Inv self answer w v)
  ]
