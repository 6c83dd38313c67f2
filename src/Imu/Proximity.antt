-- ===== src/Imu/Proximity.antt =====
-- What the proximity sensor reports: the newest change in the queue, unless another sensor's read has
-- dropped it.
use upy_android.Prelude.{
  ℕ, ◌≡◌, refl, sym, ap, ◌∙◌, Bool, true, false, Option, none, some, [], ◌||◌, not, if◌then◌else◌,
  arith, either,
}
use upy_android.Prelude.Raise.{Outcome, returned}
use upy_android.Imu.{
  Sensor, proximity, Device, Imu, Round, Waited, got, timed_out, interrupted, drain, wait_rounds,
  wait_for_fresh_event, result, read_present, read_sensor, poll_distance, or_last,
  proximity_distance_cm, ensure_capabilities_queried, open_queue, enable, ensure_enabled,
}
use upy_android.Imu.Fresh.{newest, drain-newest}
use upy_android.Imu.Moves.{wait_got}

module _ (Value : Type 0) where
  -- The proximity sensor has given a distance, and its queue is open.
  pub record IsSteady (m : Imu Value) : Type 0 where
    pub present : m.present proximity ≡ true
    pub queued : m.queue ≡ true
    pub reading : m.has_reading ≡ true
    pub queried : m.queried_capabilities ≡ true

  if_true : (b : Bool) (x y : Imu Value) → b ≡ true → (if b then x else y) ≡ x
  if_true true x y e = refl
  if_true false x y e = ground (arith, e)

  -- The sensors are known and the queue is open, so that only the sensor may change.
  ensure_same :
      (d : Device) (s : Sensor) (m : Imu Value)
      → IsSteady m
      → ensure_enabled Value d s m ≡ enable Value s m
  unfolding ensure_enabled
  ensure_same d s m h =
      let asked : ensure_capabilities_queried Value d m ≡ m =
        if_true m.queried_capabilities m _ h.queried in
      let open_q = h.queued in
      let opened : open_queue Value d m ≡ m =
        if_true (m.queue || not m.manager) m _ (ground (arith, open_q)) in
      ap (enable Value s) (ap (open_queue Value d) asked ∙ opened)

  enable-IsSteady : (s : Sensor) (m : Imu Value) → IsSteady m → IsSteady (enable Value s m)
  enable-IsSteady s m h =
      either IsSteady (not (m.present s) || (m.enabled s || not m.queue)) m _ h (record {
        present = h.present;
        queued = h.queued;
        reading = h.reading;
        queried = h.queried;
      })

  enable_distance :
      (s : Sensor) (m : Imu Value) → (enable Value s m).last_distance ≡ m.last_distance
  enable_distance s m =
      either (λ (k : Imu Value). k.last_distance ≡ m.last_distance)
        (not (m.present s) || (m.enabled s || not m.queue)) m _ refl refl

  enable_events : (s : Sensor) (m : Imu Value) → (enable Value s m).events ≡ m.events
  enable_events s m =
      either (λ (k : Imu Value). k.events ≡ m.events)
        (not (m.present s) || (m.enabled s || not m.queue)) m _ refl refl

  still_present :
      (s : Sensor) (m : Imu Value) → m.present s ≡ true → (enable Value s m).present s ≡ true
  still_present s m p =
      either (λ (k : Imu Value). k.present s ≡ true)
        (not (m.present s) || (m.enabled s || not m.queue)) m _ p p

  abbrev pub distance : Option (Outcome Value × Imu Value) → Option (Outcome Value)
  distance none = none
  distance (some (r, m)) = some r

  poll_lem :
      (rounds : ℕ → Round Value) (m : Imu Value)
      → IsSteady m
      → distance (poll_distance Value rounds m)
        ≡ some (returned (or_last Value (drain Value proximity none m.events) m.last_distance))
  poll_lem rounds m h = simp (h.present, h.reading, h.queued) refl

  -- A read returns the newest change in the queue, or the last distance where there is none.
  measure_lem :
      (d : Device) (rounds : ℕ → Round Value) (m : Imu Value)
      → IsSteady m
      → distance (proximity_distance_cm Value d rounds m)
        ≡ some (returned (or_last Value (newest Value proximity m.events) m.last_distance))
  unfolding proximity_distance_cm
  measure_lem d rounds m h =
      ap (λ k. distance (poll_distance Value rounds k)) (ensure_same d proximity m h)
      ∙ poll_lem rounds (enable Value proximity m) (enable-IsSteady proximity m h)
      ∙ ap some (
          ap returned (
            ap
              (λ es.
                or_last Value (drain Value proximity none es)
                  (enable Value proximity m).last_distance)
              (enable_events proximity m)
            ∙ ap (λ o. or_last Value o (enable Value proximity m).last_distance)
                (drain-newest Value proximity m.events)
            ∙ ap (or_last Value (newest Value proximity m.events)) (enable_distance proximity m)))

  module _ {Result : Type 0} (convert : Value → Result) (missing : Result) where
    result_left :
        (x : Waited Value × Imu Value) (r : Result) (m' : Imu Value)
        → result Value convert (some x) ≡ some (returned r, m')
        → (v : Value) × ((x.0 ≡ got v) × (x.1 ≡ m'))
    result_left (got v, m) r m' e = (v, (refl, ground (arith, e)))
    result_left (timed_out, m) r m' e = absurd (ground (arith, e))
    result_left (interrupted, m) r m' e = absurd (ground (arith, e))

    read_left :
        (d : Device) (s : Sensor) (rounds : ℕ → Round Value) (m : Imu Value) (r : Result)
        (m' : Imu Value)
        → m.present s ≡ true
        → m.queue ≡ true
        → read_present Value s convert missing rounds m ≡ some (returned r, m')
        → m' ≡ record m { events = [] }
    unfolding wait_for_fresh_event
    read_left d s rounds m r m' p q e =
        let m0 = record m { events = [] } in
        let (v, (g, h)) =
          result_left (wait_rounds Value s rounds 0 100 m0) r m' (ground (arith, e)) in
        sym h ∙ wait_got Value s rounds 0 100 m0 v g

    -- While the proximity sensor is steady, a read of the distance returns the newest change in the queue,
    -- and the last distance where there is none. But when another present sensor is read first, and that
    -- read returns, the changes in the queue are dropped: the read of the distance after it returns the
    -- last distance, whatever has changed.
    pub proximity_stale :
        (d : Device) (s : Sensor) (rounds after : ℕ → Round Value) (m : Imu Value) (r : Result)
        (m' : Imu Value)
        → IsSteady m
        → m.present s ≡ true
        → read_sensor Value d s convert missing rounds m ≡ some (returned r, m')
        → (distance (proximity_distance_cm Value d after m)
            ≡ some (returned (or_last Value (newest Value proximity m.events) m.last_distance)))
          × (distance (proximity_distance_cm Value d after m') ≡ some (returned m.last_distance))
    unfolding read_sensor newest
    proximity_stale d s rounds after m r m' h p e =
        let m1 = enable Value s m in
        let steady = enable-IsSteady s m h in
        let e1 : read_present Value s convert missing rounds m1 ≡ some (returned r, m') =
          ap (read_present Value s convert missing rounds) (sym (ensure_same d s m h)) ∙ e in
        let left = read_left d s rounds m1 r m' (still_present s m p) steady.queued e1 in
        let empty : Imu Value = record m1 { events = [] } in
        (
          measure_lem d after m h,
          ap (λ k. distance (proximity_distance_cm Value d after k)) left
              ∙ measure_lem d after empty (record {
                present = steady.present;
                queued = steady.queued;
                reading = steady.reading;
                queried = steady.queried;
              })
              ∙ ap some (ap returned (enable_distance s m)),
        )
