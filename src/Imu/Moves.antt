-- ===== src/Imu/Moves.antt =====
-- The sensors over any sequence of calls.
use upy_android.Prelude.{
  ℕ, zero, suc, ◌+◌, ◌≡◌, refl, Bool, true, false, Option, none, some, List, [], ◌++◌, not, arith,
  either, either_by,
}
use mathlib.Core.Path.{subst}
use upy_android.Prelude.Raise.{Outcome, returned, raised, os_error, enodev}
use upy_android.Imu.{
  Sensor, accel, gyro, proximity, same, Device, Event, Imu, Round, Waited, got, timed_out,
  interrupted, drain, wait_rounds, wait_for_fresh_event, result, read_sensor, keep_first, or_last,
  proximity_distance_cm, sleep, close_all, ensure_queue, enable, ensure_enabled,
}
use upy_android.Imu.Inv.{Inv, ensure_enabled-Inv, wait_Inv, sleep-Inv, events_Inv, teardown_Inv}

same_self : (s : Sensor) → same s s ≡ true
same_self accel = refl
same_self gyro = refl
same_self proximity = refl

module _ (Value : Type 0) where
  -- What a call leaves, where it ends.
  abbrev pub Left : {A : Type 0} → Option (Outcome A × Imu Value) → Type 0
  Left none = Unit {0}
  Left (some (r, m)) = Inv Value m

  abbrev WaitLeft : Option (Waited Value × Imu Value) → Type 0
  WaitLeft none = Unit {0}
  WaitLeft (some (x, m)) = Inv Value m

  fresh_Left :
      (s : Sensor) (rounds : ℕ → Round Value) (m : Imu Value)
      → Inv Value m
      → WaitLeft (wait_for_fresh_event Value s rounds m)
  unfolding wait_for_fresh_event
  fresh_Left s rounds m v =
      either (λ (o : Option (Waited Value × Imu Value)). WaitLeft o) m.queue
        (some (wait_rounds Value s rounds 0 100 (record m { events = [] }))) none
        (wait_Inv Value s rounds 0 100 _ (events_Inv Value m [] v)) tt

  module _ {Result : Type 0} (convert : Value → Result) (missing : Result) where
    result_Left :
        (o : Option (Waited Value × Imu Value)) → WaitLeft o → Left (result Value convert o)
    result_Left none i = i
    result_Left (some (got v, m)) i = i
    result_Left (some (timed_out, m)) i = i
    result_Left (some (interrupted, m)) i = i

    read_sensor-Left :
        (d : Device) (s : Sensor) (rounds : ℕ → Round Value) (m : Imu Value)
        → Inv Value m
        → Left (read_sensor Value d s convert missing rounds m)
    unfolding read_sensor
    read_sensor-Left d s rounds m v =
        let w = ensure_enabled-Inv Value d s m v in
        let m1 = ensure_enabled Value d s m in
        either (λ (o : Option (Outcome Result × Imu Value)). Left o) (m1.present s)
          (result Value convert (wait_for_fresh_event Value s rounds m1))
          (some (returned missing, m1)) (result_Left _ (fresh_Left s rounds m1 w)) w

  -- A sensor that is present is enabled after the call that enables it, where there is a queue.
  enable_lem :
      (s : Sensor) (m : Imu Value)
      → m.present s ≡ true
      → m.queue ≡ true
      → (enable Value s m).enabled s ≡ true
  enable_lem s m p q = ground (arith, same_self s)

  pub wait_got :
      (s : Sensor) (rounds : ℕ → Round Value) (k n : ℕ) (m : Imu Value) (v : Value)
      → (wait_rounds Value s rounds k n m).0 ≡ got v
      → (wait_rounds Value s rounds k n m).1 ≡ record m { events = [] }
  unfolding wait_rounds
  wait_got s rounds k zero m v e = ground (arith, e)
  wait_got s rounds k (suc n) m v e =
      ground (arith, e, wait_got s rounds (k + 1) n (record m { events = [] }) v)

  ensured_enabled :
      (d : Device) (s : Sensor) (m : Imu Value)
      → (ensure_enabled Value d s m).present s ≡ true
      → (ensure_enabled Value d s m).queue ≡ true
      → (ensure_enabled Value d s m).enabled s ≡ true
  unfolding ensure_enabled
  ensured_enabled d s m p q =
      enable_lem s (ensure_queue Value d m) (same_present (ensure_queue Value d m) p)
        (same_queue (ensure_queue Value d m) q)
    where
      same_present : (m : Imu Value) → (enable Value s m).present s ≡ true → m.present s ≡ true
      same_present m h = ground (arith, h)

      same_queue : (m : Imu Value) → (enable Value s m).queue ≡ true → m.queue ≡ true
      same_queue m h = ground (arith, h)

  kept_Inv :
      (v : Value) (m : Imu Value)
      → Inv Value m
      → m.enabled proximity ≡ true
      → Inv Value (record m { last_distance = v; has_reading = true })
  kept_Inv v m i e = record {
    queued = i.queued;
    has = i.has;
    kept = λ h. e;
    managed = i.managed;
    manned = i.manned;
    known = i.known;
  }

  first_Left :
      (x : Waited Value × Imu Value)
      → Inv Value x.1
      → ((v : Value) → x.0 ≡ got v → x.1.enabled proximity ≡ true)
      → Left (keep_first Value (some x))
  first_Left (got v, m) i h = kept_Inv v m i (h v refl)
  first_Left (timed_out, m) i h = i
  first_Left (interrupted, m) i h = i

  fresh_first_Left :
      (rounds : ℕ → Round Value) (m : Imu Value)
      → Inv Value m
      → (m.queue ≡ true → m.enabled proximity ≡ true)
      → Left (keep_first Value (wait_for_fresh_event Value proximity rounds m))
  unfolding wait_for_fresh_event
  fresh_first_Left rounds m i h =
      let m0 = record m { events = [] } in
      either_by (λ (o : Option (Waited Value × Imu Value)). Left (keep_first Value o)) m.queue
        (some (wait_rounds Value proximity rounds 0 100 m0)) none
        (λ q.
          first_Left (wait_rounds Value proximity rounds 0 100 m0)
            (wait_Inv Value proximity rounds 0 100 m0 (events_Inv Value m [] i))
            (λ v e. (let g = wait_got proximity rounds 0 100 m0 v e in rw g (h q))))
        (λ q. tt)

  distance_Inv :
      (v : Value) (m : Imu Value)
      → Inv Value m
      → Inv Value (record m { last_distance = v; events = [] })
  distance_Inv v m i = record {
    queued = i.queued;
    has = i.has;
    kept = i.kept;
    managed = i.managed;
    manned = i.manned;
    known = i.known;
  }

  proximity_Left :
      (d : Device) (rounds : ℕ → Round Value) (m : Imu Value)
      → Inv Value m
      → Left (proximity_distance_cm Value d rounds m)
  unfolding proximity_distance_cm
  proximity_Left d rounds m i =
      let m1 = ensure_enabled Value d proximity m in
      let i1 = ensure_enabled-Inv Value d proximity m i in
      either_by (λ (o : Option (Outcome Value × Imu Value)). Left o) (not (m1.present proximity))
        (some (raised (os_error enodev), m1)) _ (λ p. i1)
        (λ p.
          either (λ (o : Option (Outcome Value × Imu Value)). Left o) (not m1.has_reading)
            (keep_first Value (wait_for_fresh_event Value proximity rounds m1)) _
            (fresh_first_Left rounds m1 i1
              (λ q. ensured_enabled d proximity m (ground (arith, p)) q))
            (either (λ (o : Option (Outcome Value × Imu Value)). Left o) m1.queue
              (some (
                returned (or_last Value (drain Value proximity none m1.events) m1.last_distance),
                _,
              ))
              none (distance_Inv _ m1 i1) tt))

  -- One call of a script, events that come into the queue, or the reset.
  pub data Moves (d : Device) : Imu Value → Imu Value → Type 1 where
    was_read :
        {m m' : Imu Value} {Result : Type 0} (s : Sensor) (convert : Value → Result)
        (missing : Result) (rounds : ℕ → Round Value) (r : Outcome Result)
        → read_sensor Value d s convert missing rounds m ≡ some (r, m')
        → Moves d m m'
    measured :
        {m m' : Imu Value} (rounds : ℕ → Round Value) (r : Outcome Value)
        → proximity_distance_cm Value d rounds m ≡ some (r, m')
        → Moves d m m'
    slept : {m : Imu Value} (b : Bool) → Moves d m (sleep Value d b m)
    arrived :
        {m : Imu Value} (es : List (Event Value)) → Moves d m (record m { events = m.events ++ es })
    all_closed : {m : Imu Value} → Moves d m (close_all Value m)

  -- `g_imu` at the start; no distance has been read, so any one stands for it.
  abbrev pub start : Value → Imu Value
  start v = record {
    manager = false;
    present = λ s. false;
    looper = false;
    queue = false;
    queried_capabilities = false;
    enabled = λ s. false;
    has_reading = false;
    last_distance = v;
    events = [];
  }

  pub data Reached (d : Device) (v : Value) : Imu Value → Type 1 where
    at_start : Reached d v (start v)
    moved : {m m' : Imu Value} → Reached d v m → Moves d m m' → Reached d v m'

  Left-Inv :
      {A : Type 0} {o : Option (Outcome A × Imu Value)} {r : Outcome A} {m : Imu Value}
      → Left o
      → o ≡ some (r, m)
      → Inv Value m
  Left-Inv h e = subst Left e h

  moves_Inv : (d : Device) {m m' : Imu Value} → Moves d m m' → Inv Value m → Inv Value m'
  unfolding close_all
  moves_Inv d (was_read s convert missing rounds r e) v =
      Left-Inv (read_sensor-Left convert missing d s rounds _ v) e
  moves_Inv d (measured rounds r e) v = Left-Inv (proximity_Left d rounds _ v) e
  moves_Inv d (slept b) v = sleep-Inv Value d b _ v
  moves_Inv d (arrived es) v = events_Inv Value _ _ v
  moves_Inv d all_closed v = teardown_Inv Value _ v

  start_Inv : (v : Value) → Inv Value (start v)
  start_Inv v = record {
    queued = λ s e. ground (arith, e);
    has = λ s e. ground (arith, e);
    kept = λ e. ground (arith, e);
    managed = λ e. ground (arith, e);
    manned = λ e. ground (arith, e);
    known = λ s e. ground (arith, e);
  }

  -- After any sequence of calls, whatever events come: a sensor is only enabled while there is a queue and
  -- the device has the sensor, a distance is only kept while the proximity sensor is enabled, and there is
  -- no queue, no manager and no sensor before they have been asked for.
  pub sensors_Inv : (d : Device) (v : Value) {m : Imu Value} → Reached d v m → Inv Value m
  sensors_Inv d v at_start = start_Inv v
  sensors_Inv d v (moved r h) = moves_Inv d h (sensors_Inv d v r)
