-- ===== src/Location.antt =====
-- app/src/main/cpp/location_module.cpp: the location module, which gives a script the fixes of Android's
-- location service. LocationShim stands behind location_jni_bridge.h: its answers are arguments.
pub mod Reading
mod Tests
use upy_android.Prelude.{
  ℕ, zero, suc, ◌+◌, Bool, true, false, Option, none, some, List, ◌==◌, leb, if◌then◌else◌,
}
use upy_android.Prelude.Ints.{ℤ, pos, negsuc}
use upy_android.Prelude.Raise.{
  Outcome, returned, raised, os_error, value_error, pending, eacces, enodev,
}

-- LOCATION_OK and LOCATION_NO_PERMISSION
abbrev pub location_ok : ℕ
location_ok = 0

abbrev pub location_no_permission : ℕ
location_no_permission = 1

-- `Double` stands for C's doubles.
module _ {Double : Type 0} (is_nan : Double → Bool) where
  -- What `location_bridge_read` fills in; the numbers that the code casts to `long long` are integers.
  pub record Fix : Type 0 where
    pub latitude : Double
    pub longitude : Double
    pub altitude_m : Double
    pub accuracy_m : Double
    pub speed_mps : Double
    pub bearing_deg : Double
    pub time_ms : ℕ
    pub seq : ℕ
    pub provider : List ℕ

  -- The tuple that a script gets.
  pub record Items : Type 0 where
    pub latitude : Double
    pub longitude : Double
    pub altitude_m : Option Double
    pub accuracy_m : Option Double
    pub speed_mps : Option Double
    pub bearing_deg : Option Double
    pub time_ms : ℕ
    pub provider : List ℕ

  -- `float_or_none`
  abbrev pub float_or_none : Double → Option Double
  float_or_none value = if is_nan value then none else some value

  abbrev pub items : Fix → Items
  items fix = record {
    latitude = fix.latitude;
    longitude = fix.longitude;
    altitude_m = float_or_none fix.altitude_m;
    accuracy_m = float_or_none fix.accuracy_m;
    speed_mps = float_or_none fix.speed_mps;
    bearing_deg = float_or_none fix.bearing_deg;
    time_ms = fix.time_ms;
    provider = fix.provider;
  }

  -- `read_fix`, at the answer of the bridge and `g_read_seq`, which it may change; `none` is None.
  pub read_fix : Bool → Option Fix → ℕ → Option Items × ℕ
  read_fix last_known none read_seq = (none, read_seq)
  read_fix true (some fix) read_seq = (some (items fix), read_seq)
  read_fix false (some fix) read_seq =
      if fix.seq == read_seq then (none, read_seq) else (some (items fix), fix.seq)

  -- `location_start`; `negative` tells whether `min_distance_m` is below 0.
  pub start : Bool → ℕ → Outcome (Unit {0})
  start negative status =
      if negative
      then raised value_error
      else if status == location_ok
      then returned tt
      else if status == location_no_permission
      then raised (os_error eacces)
      else raised (os_error enodev)

  -- `location_last`
  pub last : Option Fix → ℕ → Option Items × ℕ
  last fix read_seq = read_fix true fix read_seq

  -- One round of the loop of `location_read`: the newest number, the fix that is fetched, the clock, and
  -- whether `mp_handle_pending` raises.
  pub record Round : Type 0 where
    pub seq : ℕ
    pub fix : Option Fix
    pub now : ℕ
    pub interrupted : Bool

  -- `timeout_ms >= 0 && now_ms() - start >= timeout_ms`
  abbrev pub timed_out : ℤ → ℕ → ℕ → Bool
  timed_out (pos timeout_ms) begun now = leb (begun + timeout_ms) now
  timed_out (negsuc n) begun now = false

  -- The part of a round that follows the look for a new fix; `rest` is what the next rounds give.
  abbrev pub go_on :
      ℤ → ℕ → Round → ℕ → Option (Outcome (Option Items) × ℕ) → Option (Outcome (Option Items) × ℕ)
  go_on timeout_ms begun r read_seq rest =
      if timed_out timeout_ms begun r.now
      then some (returned none, read_seq)
      else if r.interrupted
      then some (raised pending, read_seq)
      else rest

  -- The loop of `location_read`, from round `k` on; `none` when the fuel is used up.
  pub read_loop : (ℕ → Round) → ℤ → ℕ → ℕ → ℕ → ℕ → Option (Outcome (Option Items) × ℕ)
  unfolding read_fix
  read_loop rounds timeout_ms begun k zero read_seq = none
  read_loop rounds timeout_ms begun k (suc n) read_seq =
      let r = rounds k in
      let rest_same = read_loop rounds timeout_ms begun (k + 1) n read_seq in
      let rest_new = read_loop rounds timeout_ms begun (k + 1) n r.seq in
      if r.seq == read_seq
      then go_on timeout_ms begun r read_seq rest_same
      else (let (fetched, seq) = read_fix false r.fix read_seq in
          elim fetched [
            | some found ↦ some (returned (some found), seq)
            | none ↦ go_on timeout_ms begun r r.seq rest_new
          ])

  -- `location_read`; `none` when the fuel is used up.
  pub read : (ℕ → Round) → ℤ → ℕ → ℕ → ℕ → Option (Outcome (Option Items) × ℕ)
  unfolding read_loop
  read rounds timeout_ms begun fuel read_seq = read_loop rounds timeout_ms begun 0 fuel read_seq
