-- ===== src/Camera/Inv.antt =====
-- What holds of the camera module between calls: one camera is open at most, it is the one that
-- `g_open_camera` points to, and CameraX has been asked for things in order.
use upy_android.Prelude.{
  ℕ, ◌≤◌, ◌<◌, ◌≡◌, refl, true, Option, none, some, List, [], ◌∷◌, arith, Bool-cases, inl, inr,
}
use upy_android.Prelude.Words.{update}
use upy_android.Prelude.Raise.{Outcome}
use upy_android.Camera.{
  Camera, World, Event, opened, closed, acquired, released, started, abandoned, close_impl,
  close_all, close_found,
}
use upy_android.Camera.Opening.{frame_size, bridge_slots}

-- CameraX: no camera, one, or one whose frame is held.
pub data CameraX : Type 0 where
  off on holding : CameraX

-- What an event makes of it; `none` where the event is out of order.
abbrev pub respond : Event → CameraX → Option CameraX
respond opened off = some on
respond closed on = some off
respond acquired on = some holding
respond released holding = some on
respond started on = some on
respond abandoned on = some on
respond opened on = none
respond opened holding = none
respond closed off = none
respond closed holding = none
respond acquired off = none
respond acquired holding = none
respond released off = none
respond released on = none
respond started off = none
respond started holding = none
respond abandoned off = none
respond abandoned holding = none

abbrev pub respond_if : Event → Option CameraX → Option CameraX
respond_if e none = none
respond_if e (some s) = respond e s

unfoldable pub after : List Event → Option CameraX
after [] = some off
after (e ∷ es) = respond_if e (after es)

abbrev pub on_if_open : Option ℕ → CameraX
on_if_open none = off
on_if_open (some i) = on

-- Without the sizes of the buffers, which are not known yet while a camera opens.
pub record Core (w : World) : Type 0 where
  pub one : (i : ℕ) → (w.cameras i).is_open ≡ true → w.open_camera ≡ some i
  pub pointed : (i : ℕ) → w.open_camera ≡ some i → (w.cameras i).is_open ≡ true
  pub in_order : after w.log ≡ some (on_if_open w.open_camera)

pub record Inv (capacity : ℕ → ℕ) (w : World) : Type 0 where
  pub core : Core w
  pub ample :
      (i s : ℕ)
      → (w.cameras i).is_open ≡ true
      → s < bridge_slots
      → frame_size (w.cameras i).pixfmt (w.cameras i).src_w (w.cameras i).src_h
        ≤ capacity ((w.cameras i).slots s)

close_open-Core :
    (self : ℕ) (w : World)
    → Core w
    → (w.cameras self).is_open ≡ true
    → Core (close_impl self w) × ((close_impl self w).open_camera ≡ none)
unfolding close_impl after
close_open-Core self w v h = ground (arith, v.one self h)

-- The state that a call leaves, where it ends.
abbrev pub Left : {A : Type 0} → (World → Type 0) → Option (Outcome A × World) → Type 0
Left P none = Unit {0}
Left P (some (r, w)) = P w

module _ {capacity : ℕ → ℕ} where
  -- When no camera is open, there is no buffer to be too small.
  pub none-Inv : (w : World) → Core w → w.open_camera ≡ none → Inv capacity w
  none-Inv w v h = record { core = v; ample = λ i s e p. ground (arith, v.one i e) }

  pub close_open-Inv :
      (self : ℕ) (w : World)
      → Core w
      → (w.cameras self).is_open ≡ true
      → Inv capacity (close_impl self w) × ((close_impl self w).open_camera ≡ none)
  close_open-Inv self w v h =
      let (c, e) = close_open-Core self w v h in (none-Inv (close_impl self w) c e, e)

  pub close_impl-Inv : (self : ℕ) (w : World) → Inv capacity w → Inv capacity (close_impl self w)
  unfolding close_impl
  close_impl-Inv self w v = elim (Bool-cases (w.cameras self).is_open) [
    | inl e ↦ (close_open-Inv self w v.core e).0
    | inr e ↦ rw e v
  ]

  close_found-Inv :
      (o : Option ℕ) (w : World)
      → Inv capacity w
      → w.open_camera ≡ o
      → Inv capacity (close_found o w) × ((close_found o w).open_camera ≡ none)
  unfolding close_found
  close_found-Inv none w v e = (v, e)
  close_found-Inv (some i) w v e = close_open-Inv i w v.core (v.core.pointed i e)

  -- After `close_all` no camera is open.
  pub close_all-Inv :
      (w : World) → Inv capacity w → Inv capacity (close_all w) × ((close_all w).open_camera ≡ none)
  unfolding close_all
  close_all-Inv w v = close_found-Inv w.open_camera w v refl

-- A new value of the open camera, still open.
pub change-Core :
    (self : ℕ) (c : Camera) (w : World)
    → Core w
    → w.open_camera ≡ some self
    → c.is_open ≡ true
    → Core (record w { cameras = update w.cameras self c })
change-Core self c w v o h = ground arith
