-- ===== src/Imu/Tests.antt =====
-- Runs of the sensors: a device with an accelerometer and a proximity sensor.
use upy_android.Prelude.{ℕ, ◌≡◌, refl, true, false, some, [], ◌∷◌, ◌==◌, if◌then◌else◌, ◌+◌}
use upy_android.Prelude.Raise.{returned}
use upy_android.Imu.{
  accel, gyro, proximity, same, Device, Imu, Round, drain, wait_rounds, wait_for_fresh_event,
  read_sensor, ensure_enabled, proximity_distance_cm, sleep, or_last,
}
use upy_android.Imu.Fresh.{IsFirst, newest, read_fresh}
use upy_android.Imu.Inv.{Inv}
use upy_android.Imu.Moves.{start, at_start, moved, slept, sensors_Inv}
use upy_android.Imu.Proximity.{distance, proximity_stale}

abbrev device : Device
device = record {
  manager = true;
  sensor = λ s. if same s gyro then false else true;
  creates_queue = true;
}

-- An event of the accelerometer comes in the second round, behind an older one.
abbrev rounds : ℕ → Round ℕ
rounds k = record {
  events =
      if k == 1
      then record { sensor = accel; value = 3 } ∷ record { sensor = accel; value = 4 } ∷ []
      else [];
  interrupted = false;
}

-- The distance 10 has been read; a change to 2 is in the queue.
abbrev steady : Imu ℕ
steady = record {
  manager = true;
  present = λ s. if same s gyro then false else true;
  looper = true;
  queue = true;
  queried_capabilities = true;
  enabled = λ s. same s proximity;
  has_reading = true;
  last_distance = 10;
  events = record { sensor = proximity; value = 2 } ∷ [];
}

abbrev after_read : Imu ℕ
after_read = record (ensure_enabled ℕ device accel steady) { events = [] }

read_runs : read_sensor ℕ device accel (λ v. v + 1) 0 rounds steady ≡ some (returned 5, after_read)
unfolding read_sensor wait_for_fresh_event wait_rounds drain ensure_enabled
read_runs = refl

read_fresh_example : (j : ℕ) × ((v : ℕ) × (IsFirst ℕ accel rounds 0 100 v j × (5 ≡ v + 1)))
unfolding ensure_enabled
read_fresh_example =
    read_fresh ℕ device accel (λ v. v + 1) 0 rounds steady 5 after_read refl read_runs

proximity_stale_example :
    (distance ℕ (proximity_distance_cm ℕ device rounds steady)
      ≡ some (returned (or_last ℕ (newest ℕ proximity steady.events) 10)))
    × (distance ℕ (proximity_distance_cm ℕ device rounds after_read) ≡ some (returned 10))
proximity_stale_example =
    proximity_stale ℕ (λ v. v + 1) 0 device accel rounds rounds steady 5 after_read
      (record { present = refl; queued = refl; reading = refl; queried = refl }) refl read_runs

measured_runs : distance ℕ (proximity_distance_cm ℕ device rounds steady) ≡ some (returned 2)
unfolding proximity_distance_cm ensure_enabled drain
measured_runs = refl

abbrev fresh_start : Imu ℕ
fresh_start = start ℕ 0

sensors_Inv_example : Inv ℕ (sleep ℕ device false fresh_start)
sensors_Inv_example = sensors_Inv ℕ device 0 (moved at_start (slept false))
