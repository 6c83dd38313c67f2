-- ===== src/Camera/Control/Waiting.antt =====
-- A camera control ends in time, and one that is not confirmed is abandoned.
use upy_android.Prelude.{
  ℕ, zero, suc, ◌+◌, ◌*◌, ◌≤◌, ◌<◌, ◌≡◌, ◌≢◌, refl, Bool, true, false, Option, none, some, List,
  ◌∷◌, ◌==◌, leb, arith, ℕ_discrete, either,
}
use upy_android.Prelude.Raise.{
  Outcome, returned, raised, Exn, os_error, eio, enoent, einval, etimedout, enodev, eacces, pending,
  value_error, type_error, memory_error, not_implemented, enotconn, no_errno,
}
use upy_android.Camera.{World, Event, abandoned}
use upy_android.Camera.Snapshot.Keeping.{poll_ms}
use upy_android.Camera.Control.{
  Request, Answers, Round, control_loop, after_wait, start_with, run_control, raise_kind, Wait,
  wait_failed, waiting, done,
}

-- The exceptions with which the wait gives up.
abbrev pub gives_up : Exn → Bool
gives_up pending = true
gives_up value_error = false
gives_up type_error = false
gives_up memory_error = false
gives_up not_implemented = false
gives_up (os_error einval) = false
gives_up (os_error eio) = false
gives_up (os_error enoent) = false
gives_up (os_error etimedout) = true
gives_up (os_error enodev) = false
gives_up (os_error eacces) = false
gives_up (os_error enotconn) = false
gives_up (os_error no_errno) = false

abbrev pub logged : List Event → World → World
logged es w = record w { log = es }

module _ (Float Double : Type 0) where
  -- How the loop may end, from the state `w`.
  pub record IsEnded (w : World) (r : Outcome Double) (w' : World) : Type 0 where
    pub kept : (v : Double) → r ≡ returned v → w' ≡ w
    pub given_up : (e : Exn) → r ≡ raised e → gives_up e ≡ true → w' ≡ logged (abandoned ∷ w.log) w
    pub failed : (e : Exn) → r ≡ raised e → gives_up e ≡ false → w' ≡ w

  abbrev pub EndedIn : World → Option (Outcome Double × World) → Type 0
  EndedIn w none = Unit {0}
  EndedIn w (some (r, w')) = IsEnded w r w'

  raised_Ended : (e : Exn) (w : World) → gives_up e ≡ false → IsEnded w (raised e) w
  raised_Ended e w h = record {
    kept = λ v p. refl;
    given_up = λ x p q. ground (arith, p, q, h);
    failed = λ x p q. refl;
  }

  abandoned_Ended :
      (e : Exn) (w : World)
      → gives_up e ≡ true
      → IsEnded w (raised e) (logged (abandoned ∷ w.log) w)
  abandoned_Ended e w h = record {
    kept = λ v p. ground (arith, p);
    given_up = λ x p q. refl;
    failed = λ x p q. ground (arith, p, q, h);
  }

  pub raise_kind_failed : (kind : ℕ) → gives_up (raise_kind kind) ≡ false
  raise_kind_failed kind = ground arith

  wait_Ended :
      (deadline : ℕ) (w : World) (x : Wait Float Double) (interrupted : Bool) (now : ℕ)
      (rest : Option (Outcome Double × World))
      → EndedIn w rest
      → EndedIn w (after_wait Float Double deadline w x interrupted now rest)
  unfolding after_wait
  wait_Ended deadline w wait_failed i now rest h = raised_Ended (os_error eio) w refl
  wait_Ended deadline w (done kind v) i now rest h =
      either (λ r. IsEnded w r w) (kind == 0) (returned v) (raised (raise_kind kind))
        (record { kept = λ u p. refl; given_up = λ x p. ground (arith, p); failed = λ x p q. refl })
        (raised_Ended (raise_kind kind) w (raise_kind_failed kind))
  wait_Ended deadline w waiting true now rest h = abandoned_Ended pending w refl
  wait_Ended deadline w waiting false now rest h =
      either (EndedIn w) (leb deadline now)
        (some (raised (os_error etimedout), logged (abandoned ∷ w.log) w)) rest
        (abandoned_Ended (os_error etimedout) w refl) h

  pub control_loop_ended :
      (rounds : ℕ → Round Float Double) (deadline k n : ℕ) (w : World)
      → EndedIn w (control_loop Float Double rounds deadline k n w)
  unfolding control_loop after_wait
  control_loop_ended rounds deadline k zero w = tt
  control_loop_ended rounds deadline k (suc n) w =
      wait_Ended deadline w (rounds k).wait (rounds k).interrupted (rounds k).now _
        (control_loop_ended rounds deadline (k + 1) n w)

  control_loop_ends :
      (rounds : ℕ → Round Float Double) (deadline k n j : ℕ) (w : World)
      → k ≤ j
      → j < k + n
      → deadline ≤ (rounds j).now
      → control_loop Float Double rounds deadline k n w ≢ none
  unfolding control_loop after_wait
  control_loop_ends rounds deadline k zero j w p q h = absurd (omega arith)
  control_loop_ends rounds deadline k (suc n) j w p q h = elim (ℕ_discrete k j) [
    | yes e ↦ let here : deadline ≤ (rounds k).now = rw e h in ground arith
    | no e ↦
        let rest = control_loop_ends rounds deadline (k + 1) n j w (omega arith) (omega arith) h in
        ground (arith, rest)
  ]

  start_with_ends :
      (self fuel : ℕ) (answers : Answers Float Double) (w : World) (o : Option ℕ)
      → 63 ≤ fuel
      → ((k : ℕ) → answers.begun + poll_ms * (k + 1) ≤ (answers.rounds k).now)
      → start_with Float Double self answers fuel w o ≢ none
  unfolding start_with
  start_with_ends self fuel answers w none h c = ground arith
  start_with_ends self fuel answers w (some kind) h c =
      either (λ r. r ≢ none) (kind == 0) _ (some (raised (raise_kind kind), _))
        (control_loop_ends answers.rounds _ 0 fuel 62 _ (omega arith) (omega arith)
          (let last = c 62 in omega (arith, last)))
        (ground arith)

  -- When each round of the wait takes at least the 80 ms that it waits for CameraX, 63 rounds are enough: a
  -- control returns or raises.
  pub run_control_ends :
      (self fuel : ℕ) (request : Request Float Double) (answers : Answers Float Double) (w : World)
      → 63 ≤ fuel
      → ((k : ℕ) → answers.begun + poll_ms * (k + 1) ≤ (answers.rounds k).now)
      → run_control Float Double self request answers fuel w ≢ none
  unfolding run_control
  run_control_ends self fuel request answers w h c =
      either (λ r. r ≢ none) (w.cameras self).is_open _ _
        (start_with_ends self fuel answers w _ h c) (ground arith)
