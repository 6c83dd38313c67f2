-- ===== src/Camera/Moves.antt =====
-- The camera module over any sequence of calls.
use upy_android.Prelude.{ℕ, ◌≡◌, refl, Option, none, some, [], arith}
use mathlib.Core.Path.{subst}
use upy_android.Prelude.Raise.{Outcome}
use upy_android.Camera.{World, grayscale, close, close_all}
use upy_android.Camera.Inv.{Inv, Left, after, none-Inv, close_impl-Inv, close_all-Inv}
use upy_android.Camera.Opening.{Args, make_new, new_camera}
use upy_android.Camera.Opening
use upy_android.Camera.Opening.Keeping.{make_new-Inv}
use upy_android.Camera.Snapshot
use upy_android.Camera.Snapshot.{Imlib, Image, snapshot}
use upy_android.Camera.Snapshot.Keeping.{snapshot-Inv}
use upy_android.Camera.Control
use upy_android.Camera.Control.{Request, run_control}
use upy_android.Camera.Control.Settled.{run_control-Inv}
use upy_android.Camera.Info.{Answer, ask}
use upy_android.Camera.Info.Keeping.{ask-Inv}

module _ (imlib : Imlib) (capacity : ℕ → ℕ) (Float Double : Type 0) where
  -- One call. The controls are `run_control`, and the info methods are `ask`.
  pub data Moves : World → World → Type 1 where
    made :
        {w : World} (args : Args) (answers : Opening.Answers)
        → Moves w (make_new capacity args answers w).1
    was_closed : {w : World} (self : ℕ) → Moves w (close self w).1
    all_closed : {w : World} → Moves w (close_all w)
    snapped :
        {w w' : World} (self fuel : ℕ) (answers : Snapshot.Answers) (r : Outcome Image)
        → snapshot imlib self answers fuel w ≡ some (r, w')
        → Moves w w'
    controlled :
        {w w' : World} (self fuel : ℕ) (request : Request Float Double)
        (answers : Control.Answers Float Double) (r : Outcome Double)
        → run_control Float Double self request answers fuel w ≡ some (r, w')
        → Moves w w'
    asked : {w : World} {A : Type 0} (self : ℕ) (answer : Answer A) → Moves w (ask self answer w).1

  abbrev pub start : World
  start = record { cameras = λ i. new_camera capacity grayscale; open_camera = none; log = [] }

  pub data Reached : World → Type 1 where
    at_start : Reached start
    moved : {w w' : World} → Reached w → Moves w w' → Reached w'

  start_Inv : Inv capacity start
  unfolding after
  start_Inv =
      none-Inv start
        (record {
          one = λ i e. ground (arith, e);
          pointed = λ i e. ground (arith, e);
          in_order = refl;
        })
        refl

  Left-Inv :
      {A : Type 0} {o : Option (Outcome A × World)} {r : Outcome A} {w : World}
      → Left (Inv capacity) o
      → o ≡ some (r, w)
      → Inv capacity w
  Left-Inv {r = r} {w = w} h e = subst (Left (Inv capacity)) e h

  moves_Inv : {w w' : World} → Moves w w' → Inv capacity w → Inv capacity w'
  unfolding close
  moves_Inv (made args answers) v = (make_new-Inv capacity args answers _ v).inv
  moves_Inv (was_closed self) v = close_impl-Inv self _ v
  moves_Inv all_closed v = (close_all-Inv _ v).0
  moves_Inv (snapped self fuel answers r e) v =
      Left-Inv (snapshot-Inv imlib self fuel answers _ v) e
  moves_Inv (controlled self fuel request answers r e) v =
      Left-Inv (run_control-Inv Float Double self fuel request answers _ v) e
  moves_Inv (asked self answer) v = ask-Inv self answer _ v

  -- After any sequence of calls, whatever CameraX answers: one camera is open at most, and it is the one
  -- that `g_open_camera` points to; CameraX has been asked for things in order, has the camera open just
  -- when the module has, and no frame is held; and each buffer of the open camera is big enough for its
  -- frames.
  pub reached_Inv : {w : World} → Reached w → Inv capacity w
  reached_Inv at_start = start_Inv
  reached_Inv (moved r m) = moves_Inv m (reached_Inv r)
