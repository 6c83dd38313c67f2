-- ===== src/Camera/Snapshot/Keeping.antt =====
-- A snapshot ends in time and leaves the state in order: a frame that it holds is released.
use upy_android.Prelude.{
  ℕ, ◌+◌, ◌*◌, ◌≤◌, ◌≡◌, ◌≢◌, refl, true, Option, none, some, List, ◌∷◌, arith, Bool-cases, either,
  inl, inr,
}
use upy_android.Prelude.Words.{update}
use upy_android.Prelude.Raise.{Outcome, raised, os_error, no_errno}
use upy_android.Camera.{World, acquired, released}
use upy_android.Camera.Inv.{Inv, after, close_impl-Inv, Left, change-Core}
use upy_android.Camera.Snapshot.{
  Imlib, Image, Waited, got, gave_up, bridge_failed, Answers, take_frame, with_block, snapshot,
  unexpected, finish,
}
use upy_android.Camera.Snapshot.Frames.{wait_frame_ends}

-- kPollMs
abbrev pub poll_ms : ℕ
poll_ms = 80

module _ (imlib : Imlib) where
  finish_ends :
      (self raw : ℕ) (memory : ℕ → List ℕ) (w : World) (o : Option Waited)
      → o ≢ none
      → finish imlib self memory raw w o ≢ none
  finish_ends self raw memory w none h = absurd (h refl)
  finish_ends self raw memory w (some x) h = ground arith

  with_block_ends :
      (self fuel : ℕ) (answers : Answers) (w : World) (o : Option ℕ)
      → 63 ≤ fuel
      → ((k : ℕ) → answers.start + poll_ms * (k + 1) ≤ (answers.rounds k).now)
      → with_block imlib self answers fuel w o ≢ none
  unfolding with_block
  with_block_ends self fuel answers w none h c = ground arith
  with_block_ends self fuel answers w (some raw) h c = finish_ends self raw answers.memory w _ (
      wait_frame_ends answers.rounds _ _ 0 fuel 62 (omega arith) (omega arith)
        (let last = c 62 in ground (arith, last)))

  -- When each round of the wait takes at least the 80 ms that it waits for a frame, 63 rounds are enough:
  -- a snapshot returns or raises.
  pub snapshot_ends :
      (self fuel : ℕ) (answers : Answers) (w : World)
      → 63 ≤ fuel
      → ((k : ℕ) → answers.start + poll_ms * (k + 1) ≤ (answers.rounds k).now)
      → snapshot imlib self answers fuel w ≢ none
  unfolding snapshot
  snapshot_ends self fuel answers w h c =
      either (λ r. r ≢ none) (w.cameras self).is_open _ _
        (with_block_ends self fuel answers w _ h c) (ground arith)

  module _ {capacity : ℕ → ℕ} where
    release_Inv :
        (self seq : ℕ) (w : World)
        → Inv capacity w
        → (w.cameras self).is_open ≡ true
        → Inv capacity (record w { log = released ∷ acquired ∷ w.log })
    unfolding after
    release_Inv self seq w v o = record {
      core = record {
        one = v.core.one;
        pointed = v.core.pointed;
        in_order = ground (arith, v.core.one self);
      };
      ample = v.ample;
    }

    seq_Inv :
        (self seq : ℕ) (w : World)
        → Inv capacity w
        → (w.cameras self).is_open ≡ true
        → Inv capacity (record w {
          cameras = update w.cameras self (record (w.cameras self) { last_seq = seq });
        })
    seq_Inv self seq w v o = record {
      core = change-Core self _ w v.core (v.core.one self o) o;
      ample = λ i s p q. ground (arith, v.ample i s, v.ample self s);
    }

    take_frame-Inv :
        (self raw : ℕ) (memory : ℕ → List ℕ) (x : Waited) (w : World)
        → Inv capacity w
        → (w.cameras self).is_open ≡ true
        → Inv capacity (take_frame imlib self memory raw x w).1
    unfolding take_frame
    take_frame-Inv self raw memory bridge_failed w v o = close_impl-Inv self w v
    take_frame-Inv self raw memory (gave_up e) w v o = v
    take_frame-Inv self raw memory (got f) w v o =
        let r = release_Inv self f.seq w v o in
        either (λ (r : Outcome Image × World). Inv capacity r.1) (unexpected (w.cameras self) f)
          (raised (os_error no_errno), _) _ r (seq_Inv self f.seq _ r o)

    finish-Inv :
        (self raw : ℕ) (memory : ℕ → List ℕ) (o : Option Waited) (w : World)
        → Inv capacity w
        → (w.cameras self).is_open ≡ true
        → Left (Inv capacity) (finish imlib self memory raw w o)
    finish-Inv self raw memory none w v o = tt
    finish-Inv self raw memory (some x) w v o = take_frame-Inv self raw memory x w v o

    with_block-Inv :
        (self fuel : ℕ) (answers : Answers) (w : World) (o : Option ℕ)
        → Inv capacity w
        → (w.cameras self).is_open ≡ true
        → Left (Inv capacity) (with_block imlib self answers fuel w o)
    unfolding with_block
    with_block-Inv self fuel answers w none v o = v
    with_block-Inv self fuel answers w (some raw) v o = finish-Inv self raw answers.memory _ w v o

    pub snapshot-Inv :
        (self fuel : ℕ) (answers : Answers) (w : World)
        → Inv capacity w
        → Left (Inv capacity) (snapshot imlib self answers fuel w)
    unfolding snapshot
    snapshot-Inv self fuel answers w v = elim (Bool-cases (w.cameras self).is_open) [
      | inl o ↦ rw o (with_block-Inv self fuel answers w _ v o)
      | inr c ↦ rw c v
    ]
