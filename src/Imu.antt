-- ===== src/Imu.antt =====
-- app/src/main/cpp/imu_module.cpp: the imu module and the proximity sensor of the android module. Android's
-- sensor service is a parameter: what a sensor manager gives, and the events that come into the queue.
pub mod Fresh
pub mod Inv
pub mod Proximity
pub mod Moves
mod Tests
use upy_android.Prelude.{
  ℕ, zero, suc, ◌+◌, ◌/◌, Bool, true, false, Option, none, some, List, [], ◌∷◌, ◌++◌, ◌&&◌, ◌||◌,
  not, if◌then◌else◌,
}
use upy_android.Prelude.Raise.{Outcome, returned, raised, os_error, pending, etimedout, enodev}

pub data Sensor : Type 0 where
  accel gyro proximity : Sensor

abbrev pub same : Sensor → Sensor → Bool
same accel accel = true
same accel gyro = false
same accel proximity = false
same gyro accel = false
same gyro gyro = true
same gyro proximity = false
same proximity accel = false
same proximity gyro = false
same proximity proximity = true

abbrev pub with_flag : (Sensor → Bool) → Sensor → Bool → Sensor → Bool
with_flag f s b t = if same s t then b else f t

-- kReadTimeoutMs and kWaitChunkMs
abbrev pub read_timeout_ms : ℕ
read_timeout_ms = 500

abbrev pub wait_chunk_ms : ℕ
wait_chunk_ms = 5

-- The device: whether there is a sensor manager, which sensors it has, and whether it creates a queue.
pub record Device : Type 0 where
  pub manager : Bool
  pub sensor : Sensor → Bool
  pub creates_queue : Bool

-- `Value` is what an event holds: three numbers, or a distance.
module _ (Value : Type 0) where
  -- `ASensorEvent`
  pub record Event : Type 0 where
    pub sensor : Sensor
    pub value : Value

  -- `ImuState`, with the events in the queue; `present` says which sensors are not NULL.
  pub record Imu : Type 0 where
    pub manager : Bool
    pub present : Sensor → Bool
    pub looper : Bool
    pub queue : Bool
    pub queried_capabilities : Bool
    pub enabled : Sensor → Bool
    pub has_reading : Bool
    pub last_distance : Value
    pub events : List Event

  -- `ensure_capabilities_queried`
  abbrev pub ensure_capabilities_queried : Device → Imu → Imu
  ensure_capabilities_queried d m = if m.queried_capabilities then m else record m {
    manager = d.manager;
    present = λ s. if d.manager then d.sensor s else m.present s;
    queried_capabilities = true;
  }

  -- `ensure_queue`
  abbrev pub open_queue : Device → Imu → Imu
  open_queue d m =
      if m.queue || not m.manager
      then m
      else record m { looper = true; queue = d.creates_queue; events = [] }

  abbrev pub ensure_queue : Device → Imu → Imu
  ensure_queue d m = open_queue d (ensure_capabilities_queried d m)

  -- `ensure_accel_enabled`, `ensure_gyro_enabled` and `ensure_proximity_enabled`
  abbrev pub enable : Sensor → Imu → Imu
  enable s m =
      if not (m.present s) || (m.enabled s || not m.queue)
      then m
      else record m { enabled = with_flag m.enabled s true }

  pub ensure_enabled : Device → Sensor → Imu → Imu
  ensure_enabled d s m = enable s (ensure_queue d m)

  -- `teardown_queue`
  pub teardown_queue : Imu → Imu
  teardown_queue m = record m {
    queue = false;
    enabled = λ s. false;
    has_reading = false;
    events = [];
  }

  -- The loop that empties the queue and keeps the last event of a sensor; `out` is what it has so far.
  pub drain : Sensor → Option Value → List Event → Option Value
  drain s out [] = out
  drain s out (e ∷ es) = drain s (if same e.sensor s then some e.value else out) es

  -- One round of a wait: the events that have come, and whether `mp_handle_pending` raises.
  pub record Round : Type 0 where
    pub events : List Event
    pub interrupted : Bool

  -- How `wait_for_fresh_event` ends: with a value, by a timeout, or by an exception.
  pub data Waited : Type 0 where
    got : Value → Waited
    timed_out interrupted : Waited

  -- A round of the wait at what the loop over its events gives; `rest` is what follows.
  abbrev pub after_drain : Option Value → Bool → Imu → Waited × Imu → Waited × Imu
  after_drain (some v) i m rest = (got v, m)
  after_drain none true m rest = (interrupted, m)
  after_drain none false m rest = rest

  -- The `n` rounds of the wait that are left, from round `k` on. The events of a round come behind those in the
  -- queue, and all are read.
  pub wait_rounds : Sensor → (ℕ → Round) → ℕ → ℕ → Imu → Waited × Imu
  unfolding teardown_queue drain
  wait_rounds s rounds k zero m = (timed_out, teardown_queue m)
  wait_rounds s rounds k (suc n) m =
      let read = record m { events = [] } in
      let rest = wait_rounds s rounds (k + 1) n read in
      after_drain (drain s none (m.events ++ (rounds k).events)) (rounds k).interrupted read rest

  -- `wait_for_fresh_event`; `none` where there is no queue to read.
  pub wait_for_fresh_event : Sensor → (ℕ → Round) → Imu → Option (Waited × Imu)
  wait_for_fresh_event s rounds m =
      if m.queue
      then some
          (wait_rounds s rounds 0 (read_timeout_ms / wait_chunk_ms) (record m { events = [] }))
      else none

  module _ {Result : Type 0} where
    abbrev pub result : (Value → Result) → Option (Waited × Imu) → Option (Outcome Result × Imu)
    result convert none = none
    result convert (some (got v, m)) = some (returned (convert v), m)
    result convert (some (timed_out, m)) = some (raised (os_error etimedout), m)
    result convert (some (interrupted, m)) = some (raised pending, m)

    abbrev pub read_present :
        Sensor → (Value → Result) → Result → (ℕ → Round) → Imu → Option (Outcome Result × Imu)
    read_present s convert missing rounds m =
        if m.present s
        then result convert (wait_for_fresh_event s rounds m)
        else some (returned missing, m)

    -- `imu_acceleration_mg`, `imu_angular_rate_mdps`, `imu_roll` and `imu_pitch`: the sensor, what the
    -- function makes of a value, and what it returns without the sensor.
    pub read_sensor :
        Device
        → Sensor
        → (Value → Result)
        → Result
        → (ℕ → Round)
        → Imu
        → Option (Outcome Result × Imu)
    unfolding ensure_enabled wait_for_fresh_event
    read_sensor d s convert missing rounds m =
        read_present s convert missing rounds (ensure_enabled d s m)

  -- `imu_sleep`
  pub sleep : Device → Bool → Imu → Imu
  unfolding ensure_enabled
  sleep d true m =
      if m.queue
      then record m { enabled = with_flag (with_flag m.enabled accel false) gyro false }
      else m
  sleep d false m = ensure_enabled d gyro (ensure_enabled d accel m)

  abbrev pub keep_first : Option (Waited × Imu) → Option (Outcome Value × Imu)
  keep_first none = none
  keep_first (some (got v, m)) =
      some (returned v, record m { last_distance = v; has_reading = true })
  keep_first (some (timed_out, m)) = some (raised (os_error etimedout), m)
  keep_first (some (interrupted, m)) = some (raised pending, m)

  abbrev pub or_last : Option Value → Value → Value
  or_last none v = v
  or_last (some u) v = u

  -- `android_proximity_distance_cm` past its enabling.
  abbrev pub poll_distance : (ℕ → Round) → Imu → Option (Outcome Value × Imu)
  poll_distance rounds m =
      if not (m.present proximity)
      then some (raised (os_error enodev), m)
      else if not m.has_reading
      then keep_first (wait_for_fresh_event proximity rounds m)
      else if m.queue
      then (let v = or_last (drain proximity none m.events) m.last_distance in
          some (returned v, record m { last_distance = v; events = [] }))
      else none

  -- `android_proximity_distance_cm`; `none` where there is no queue to read.
  pub proximity_distance_cm : Device → (ℕ → Round) → Imu → Option (Outcome Value × Imu)
  unfolding ensure_enabled wait_for_fresh_event drain
  proximity_distance_cm d rounds m = poll_distance rounds (ensure_enabled d proximity m)

  -- `imu_close_all`
  unfoldable pub close_all : Imu → Imu
  unfolding teardown_queue
  close_all m = teardown_queue m
