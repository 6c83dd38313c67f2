-- ===== src/Engine/Exec.antt =====
-- A script's run in the app: what is printed, what is returned, and what it leaves.
use upy_android.Prelude.{ℕ, List, ◌++◌}
use upy_android.Output.{Output}
use upy_android.Stdin.{Stdin}
use upy_android.Engine.{Engine, Script, report}

-- All that is printed: by the script, and as the report of its exception.
abbrev pub printed : {Value : Type 0} → Script Value → List (List ℕ)
printed {Value} s = s.prints ++ report Value s.error
