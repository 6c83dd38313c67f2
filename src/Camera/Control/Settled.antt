-- ===== src/Camera/Control/Settled.antt =====
-- What a control has asked CameraX for when it ends.
use upy_android.Prelude.{
  ℕ, ◌+◌, ◌≡◌, ◌≢◌, ◌⊎◌, refl, ap, true, false, Option, none, some, ◌∷◌, ◌==◌, if◌then◌else◌, arith,
  Bool-cases, ℕ_discrete, inl, inr,
}
use upy_android.Prelude.Raise.{Outcome, returned, raised, Exn, os_error, eio, einval}
use upy_android.Camera.{World, started, abandoned, close_impl}
use upy_android.Camera.Inv.{Inv, Left, after, close_impl-Inv}
use upy_android.Camera.Control.{
  Request, Answers, start_with, run_control, raise_kind, err_lost, control_timeout_ms,
}
use upy_android.Camera.Control.Waiting.{
  gives_up, logged, EndedIn, control_loop_ended, raise_kind_failed,
}

module _ (Float Double : Type 0) where
  -- How a control of `self` may end, from the state `w`. `asked` is what CameraX answered to its start, `none` where
  -- it was not asked; an answer `some 0` is that it has started.
  pub record IsSettled (self : ℕ) (asked : Option (Option ℕ)) (w : World) (r : Outcome Double)
      (w' : World) : Type 0 where
    pub confirmed :
        (v : Double) → r ≡ returned v → (asked ≡ some (some 0)) × (w' ≡ logged (started ∷ w.log) w)
    pub given_up :
        (e : Exn)
        → r ≡ raised e
        → gives_up e ≡ true
        → (asked ≡ some (some 0)) × (w' ≡ logged (abandoned ∷ started ∷ w.log) w)
    pub failed :
        (e : Exn)
        → r ≡ raised e
        → gives_up e ≡ false
        → ((asked ≢ some (some 0)) × (asked ≢ some (some err_lost)) × (w' ≡ w))
          ⊎ (((asked ≡ some (some 0)) × (w' ≡ logged (started ∷ w.log) w))
              ⊎ ((asked ≡ some (some err_lost)) × (w' ≡ close_impl self w)))

  abbrev pub SettledIn : ℕ → Option (Option ℕ) → World → Option (Outcome Double × World) → Type 0
  SettledIn self asked w none = Unit {0}
  SettledIn self asked w (some (r, w')) = IsSettled self asked w r w'

  loop_Settled :
      (self : ℕ) (w : World) (o : Option (Outcome Double × World))
      → EndedIn Float Double (logged (started ∷ w.log) w) o
      → SettledIn self (some (some 0)) w o
  loop_Settled self w none h = tt
  loop_Settled self w (some (r, w')) h = record {
    confirmed = λ v p. (refl, h.kept v p);
    given_up = λ e p q. (refl, h.given_up e p q);
    failed = λ e p q. inr (inl (refl, h.failed e p q));
  }

  unmade_Settled :
      (self : ℕ) (asked : Option (Option ℕ)) (w w' : World) (e : Exn)
      → gives_up e ≡ false
      → ((asked ≢ some (some 0)) × (asked ≢ some (some err_lost)) × (w' ≡ w))
        ⊎ ((asked ≡ some (some err_lost)) × (w' ≡ close_impl self w))
      → IsSettled self asked w (raised e) w'
  unmade_Settled self asked w w' e h s = record {
    confirmed = λ v p. absurd (ground (arith, p));
    given_up = λ x p q. absurd (ground (arith, p, q, h));
    failed = λ x p q. elim s [ inl a ↦ inl a | inr b ↦ inr (inr b) ];
  }

  start_with_Settled :
      (self fuel : ℕ) (answers : Answers Float Double) (w : World) (o : Option ℕ)
      → SettledIn self (some o) w (start_with Float Double self answers fuel w o)
  unfolding start_with
  start_with_Settled self fuel answers w none =
      unmade_Settled self (some none) w w (os_error eio) refl
        (inl (λ e. ground (arith, e), λ e. ground (arith, e), refl))
  start_with_Settled self fuel answers w (some kind) = elim (ℕ_discrete kind 0) [
    | yes e ↦ rw e (
        loop_Settled self w _ (
          control_loop_ended Float Double answers.rounds (answers.begun + control_timeout_ms) 0 fuel
            (logged (started ∷ w.log) w)))
    | no n ↦
        let e : (kind == 0) ≡ false = ground arith in
        rw e (
          unmade_Settled self (some (some kind)) w _ (raise_kind kind)
            (raise_kind_failed Float Double kind)
            (elim (ℕ_discrete kind err_lost) [
              | yes lost ↦
                  let is_lost : (kind == err_lost) ≡ true = ground (arith, lost) in
                  rw is_lost (inr (ap (λ k. some (some k)) lost, refl))
              | no other ↦
                  let not_lost : (kind == err_lost) ≡ false = ground (arith, other) in
                  rw not_lost (inl (λ p. ground (arith, p, n), λ p. ground (arith, p, other), refl))
            ]))
  ]

  -- What CameraX is asked, if the camera is open.
  abbrev pub asked_of : ℕ → Request Float Double → Answers Float Double → World → Option (Option ℕ)
  asked_of self request answers w =
      if (w.cameras self).is_open then some (answers.start request) else none

  -- A control that returns has been started by CameraX; one that gives up, on an interrupt or after 5 s, has been
  -- started, and abandoned. One that fails otherwise closes the camera just when CameraX answers that it is lost;
  -- else it leaves what it has started, or, when nothing was, changes nothing.
  pub run_control_settled :
      (self fuel : ℕ) (request : Request Float Double) (answers : Answers Float Double) (w : World)
      → SettledIn self
          (asked_of self request answers w)
          w
          (run_control Float Double self request answers fuel w)
  unfolding run_control
  run_control_settled self fuel request answers w = elim (Bool-cases (w.cameras self).is_open) [
    | inl open_ ↦ rw open_ (start_with_Settled self fuel answers w (answers.start request))
    | inr shut ↦ rw shut (
        unmade_Settled self none w w (os_error einval) refl
          (inl (λ e. ground (arith, e), λ e. ground (arith, e), refl)))
  ]

module _ (Float Double : Type 0) {capacity : ℕ → ℕ} where
  started_Inv :
      (self : ℕ) (w : World)
      → Inv capacity w
      → (w.cameras self).is_open ≡ true
      → Inv capacity (logged (started ∷ w.log) w)
        × Inv capacity (logged (abandoned ∷ started ∷ w.log) w)
  unfolding after
  started_Inv self w v o =
      let p = v.core.one self o in
      (
        record {
          core = record {
            one = v.core.one;
            pointed = v.core.pointed;
            in_order = ground (arith, p);
          };
          ample = v.ample;
        },
        record {
          core = record {
            one = v.core.one;
            pointed = v.core.pointed;
            in_order = ground (arith, p);
          };
          ample = v.ample;
        },
      )

  settled_Inv :
      (self : ℕ) (w : World) (r : Outcome Double) (w' : World)
      → Inv capacity w
      → (w.cameras self).is_open ≡ true
      → (asked : Option (Option ℕ)) → IsSettled Float Double self asked w r w'
      → Inv capacity w'
  settled_Inv self w (returned x) w' v o asked h =
      rw (h.confirmed x refl).1 (started_Inv self w v o).0
  settled_Inv self w (raised e) w' v o asked h = elim (Bool-cases (gives_up e)) [
    | inl g ↦ rw (h.given_up e refl g).1 (started_Inv self w v o).1
    | inr g ↦ elim (h.failed e refl g) [
      | inl (_, _, same) ↦ rw same v
      | inr (inl (_, s)) ↦ rw s (started_Inv self w v o).0
      | inr (inr (_, c)) ↦ rw c (close_impl-Inv self w v)
    ]
  ]

  Left-Inv :
      (self : ℕ) (w : World) (o : Option (Outcome Double × World))
      → Inv capacity w
      → (w.cameras self).is_open ≡ true
      → (asked : Option (Option ℕ)) → SettledIn Float Double self asked w o
      → Left (Inv capacity) o
  Left-Inv self w none v o asked h = tt
  Left-Inv self w (some (r, w')) v o asked h = settled_Inv self w r w' v o asked h

  pub run_control-Inv :
      (self fuel : ℕ) (request : Request Float Double) (answers : Answers Float Double) (w : World)
      → Inv capacity w
      → Left (Inv capacity) (run_control Float Double self request answers fuel w)
  unfolding run_control
  run_control-Inv self fuel request answers w v = elim (Bool-cases (w.cameras self).is_open) [
    | inl o ↦ rw o (Left-Inv self w _ v o _ (start_with_Settled Float Double self fuel answers w _))
    | inr c ↦ rw c v
  ]
