-- ===== src/Imu/Inv.antt =====
-- The state of the sensors over any sequence of calls.
use upy_android.Prelude.{
  ℕ, zero, suc, ◌+◌, ◌≡◌, refl, Bool, true, false, Option, none, some, List, ◌||◌, not, arith,
  Bool-cases, either_by, inl, inr, [],
}
use upy_android.Imu.{
  Sensor, accel, gyro, proximity, same, Device, Event, Imu, Round, Waited, after_drain, wait_rounds,
  sleep, teardown_queue, ensure_capabilities_queried, open_queue, enable, ensure_enabled,
}

same_lem : (s t : Sensor) → same s t ≡ true → s ≡ t
same_lem accel accel e = refl
same_lem accel gyro e = ground (arith, e)
same_lem accel proximity e = ground (arith, e)
same_lem gyro accel e = ground (arith, e)
same_lem gyro gyro e = refl
same_lem gyro proximity e = ground (arith, e)
same_lem proximity accel e = ground (arith, e)
same_lem proximity gyro e = ground (arith, e)
same_lem proximity proximity e = refl

module _ (Value : Type 0) where
  -- A sensor is only enabled, and a distance only kept, while there is a queue; a sensor that is enabled is
  -- present; and there is no queue, and no sensor present, without a manager that has been asked for.
  pub record Inv (m : Imu Value) : Type 0 where
    pub queued : (s : Sensor) → m.enabled s ≡ true → m.queue ≡ true
    pub has : (s : Sensor) → m.enabled s ≡ true → m.present s ≡ true
    pub kept : m.has_reading ≡ true → m.enabled proximity ≡ true
    pub managed : m.queue ≡ true → m.queried_capabilities ≡ true
    pub manned : m.manager ≡ true → m.queried_capabilities ≡ true
    pub known : (s : Sensor) → m.present s ≡ true → m.queried_capabilities ≡ true

  queried_Inv : (d : Device) (m : Imu Value) → Inv m → Inv (ensure_capabilities_queried Value d m)
  queried_Inv d m v =
      either_by Inv m.queried_capabilities m _ (λ q. v)
        (λ q. record {
          queued = v.queued;
          has = λ s e. (let h = v.managed (v.queued s e) in absurd (ground (arith, h, q)));
          kept = v.kept;
          managed = λ e. refl;
          manned = λ e. refl;
          known = λ s e. refl;
        })

  opened_Inv : (d : Device) (m : Imu Value) → Inv m → Inv (open_queue Value d m)
  opened_Inv d m v = elim (Bool-cases (m.queue || not m.manager)) [
    | inl q ↦ rw q v
    | inr q ↦ rw q (record {
      queued = λ s e. (let h = v.queued s e in absurd (ground (arith, h, q)));
      has = v.has;
      kept = v.kept;
      managed = λ e. v.manned (ground (arith, q));
      manned = v.manned;
      known = v.known;
    })
  ]

  enable-Inv : (s : Sensor) (m : Imu Value) → Inv m → Inv (enable Value s m)
  enable-Inv s m v = elim (Bool-cases (not (m.present s) || (m.enabled s || not m.queue))) [
    | inl q ↦ rw q v
    | inr q ↦ rw q (record {
      queued = λ t e. ground (arith, q);
      has = λ t e. elim (Bool-cases (same s t)) [
        | inl y ↦ rw (← same_lem s t y) (ground (arith, q))
        | inr n ↦ v.has t (ground (arith, e, n))
      ];
      kept = λ e. (let h = v.kept e in ground (arith, h));
      managed = v.managed;
      manned = v.manned;
      known = v.known;
    })
  ]

  pub ensure_enabled-Inv :
      (d : Device) (s : Sensor) (m : Imu Value) → Inv m → Inv (ensure_enabled Value d s m)
  unfolding ensure_enabled
  ensure_enabled-Inv d s m v = enable-Inv s _ (opened_Inv d _ (queried_Inv d m v))

  pub teardown_Inv : (m : Imu Value) → Inv m → Inv (teardown_queue Value m)
  unfolding teardown_queue
  teardown_Inv m v = record {
    queued = λ s e. ground (arith, e);
    has = λ s e. ground (arith, e);
    kept = λ e. ground (arith, e);
    managed = λ e. ground (arith, e);
    manned = v.manned;
    known = v.known;
  }

  -- The queue's events do not matter.
  pub events_Inv :
      (m : Imu Value) (es : List (Event Value)) → Inv m → Inv (record m { events = es })
  events_Inv m es v = record {
    queued = v.queued;
    has = v.has;
    kept = v.kept;
    managed = v.managed;
    manned = v.manned;
    known = v.known;
  }

  after_drain-Inv :
      (o : Option Value) (i : Bool) (m : Imu Value) (rest : Waited Value × Imu Value)
      → Inv m
      → Inv rest.1
      → Inv (after_drain Value o i m rest).1
  after_drain-Inv (some x) i m rest v r = v
  after_drain-Inv none true m rest v r = v
  after_drain-Inv none false m rest v r = r

  pub wait_Inv :
      (s : Sensor) (rounds : ℕ → Round Value) (k n : ℕ) (m : Imu Value)
      → Inv m
      → Inv (wait_rounds Value s rounds k n m).1
  unfolding wait_rounds
  wait_Inv s rounds k zero m v = teardown_Inv m v
  wait_Inv s rounds k (suc n) m v =
      let read = events_Inv m [] v in
      after_drain-Inv _ (rounds k).interrupted (record m { events = [] }) _ read
        (wait_Inv s rounds (k + 1) n (record m { events = [] }) read)

  pub sleep-Inv : (d : Device) (b : Bool) (m : Imu Value) → Inv m → Inv (sleep Value d b m)
  unfolding sleep
  sleep-Inv d false m v = ensure_enabled-Inv d gyro _ (ensure_enabled-Inv d accel m v)
  sleep-Inv d true m v =
      either_by Inv m.queue _ m
        (λ q. record {
          queued = λ s e. q;
          has = λ s e. v.has s (ground (arith, e));
          kept = v.kept;
          managed = λ e. v.managed q;
          manned = v.manned;
          known = v.known;
        })
        (λ q. v)
