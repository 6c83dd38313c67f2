-- ===== src/Location/Tests.antt =====
-- Runs of the location module.
use upy_android.Prelude.{
  ℕ, ◌*◌, ◌≡◌, ◌≢◌, refl, Bool, false, none, some, [], arith, ◌==◌, if◌then◌else◌,
}
use upy_android.Prelude.Ints.{pos}
use upy_android.Prelude.Raise.{returned}
use upy_android.Location.{Fix, Round, items, read_fix, read_loop, read}
use upy_android.Location.Reading.{Newer, read_ends, read-Newer}

abbrev never_nan : ℕ → Bool
never_nan value = false

abbrev a_fix : ℕ → Fix never_nan
a_fix n = record {
  latitude = 52;
  longitude = 4;
  altitude_m = 1;
  accuracy_m = 10;
  speed_mps = 0;
  bearing_deg = 0;
  time_ms = 1000;
  seq = n;
  provider = [];
}

-- A fix comes in the second round, when the last one read is number 3.
abbrev rounds : ℕ → Round never_nan
rounds k = record {
  seq = if k == 0 then 3 else 4;
  fix = some (a_fix 4);
  now = 5 * k;
  interrupted = false;
}

read_runs :
    read never_nan rounds (pos 100) 0 22 3 ≡ some (returned (some (items never_nan (a_fix 4))), 4)
unfolding read read_loop read_fix
read_runs = refl

read-Newer_example : Newer never_nan rounds 3 (items never_nan (a_fix 4)) 4
read-Newer_example =
    read-Newer never_nan rounds (pos 100) 0 22 3 (items never_nan (a_fix 4)) 4 (omega arith)
      (λ i j p. ground arith) (λ j fix e. ground (arith, e)) read_runs

read_ends_example : read never_nan rounds (pos 100) 0 22 3 ≢ none
read_ends_example = read_ends never_nan rounds 100 0 22 3 (omega arith) (λ k. omega arith)
