-- ===== src/Display/Windows/Tests.antt =====
-- Windows that are attached, drawn on and detached.
use upy_android.Prelude.{◌≡◌, refl, true, false, none, some, List, [], ◌∷◌}
use upy_android.Display.Windows.{
  fitted, drawn, released, Call, attaches, draws, calls, held, start, windows_in_order,
}

abbrev changes : List Call
changes = attaches (some 3) ∷ draws true ∷ attaches (some 4) ∷ draws false ∷ attaches none ∷ []

windows_in_order_example : let s = calls changes start in held s.log ≡ some s.window
windows_in_order_example = windows_in_order changes

events : (calls changes start).log ≡ released 4 ∷ fitted 4 ∷ released 3 ∷ drawn 3 ∷ fitted 3 ∷ []
unfolding calls
events = refl

draws_after_release : held (drawn 3 ∷ released 3 ∷ fitted 3 ∷ []) ≡ none
unfolding held
draws_after_release = refl
