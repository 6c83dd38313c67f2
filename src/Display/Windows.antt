-- ===== src/Display/Windows.antt =====
-- `g_window`, under its mutex: the app attaches and detaches a window while a script draws.
mod Tests
use upy_android.Prelude.{
  ℕ, ◌≡◌, refl, ap, ◌∙◌, Bool, true, false, Option, none, some, List, [], ◌∷◌, ◌==◌, if◌then◌else◌,
  arith,
}

-- What is done with the windows, the latest first.
pub data WindowEvent : Type 0 where
  fitted drawn released : ℕ → WindowEvent

pub record Screen : Type 0 where
  pub window : Option ℕ
  pub log : List WindowEvent

abbrev release : Option ℕ → List WindowEvent → List WindowEvent
release none log = log
release (some window) log = released window ∷ log

abbrev fit : Option ℕ → List WindowEvent → List WindowEvent
fit none log = log
fit (some window) log = fitted window ∷ log

-- `display_set_window`
set_window : Option ℕ → Screen → Screen
set_window new s = record { window = new; log = fit new (release s.window s.log) }

-- What `display_write` does with the window, which may refuse to be locked.
abbrev draw_on : Bool → Option ℕ → List WindowEvent → List WindowEvent
draw_on locked none log = log
draw_on locked (some window) log = if locked then drawn window ∷ log else log

draw_window : Bool → Screen → Screen
draw_window locked s = record s { log = draw_on locked s.window s.log }

-- A call of the app or of the script, which the mutex makes one step.
pub data Call : Type 0 where
  attaches : Option ℕ → Call
  draws : Bool → Call

call : Call → Screen → Screen
unfolding set_window draw_window
call (attaches new) s = set_window new s
call (draws locked) s = draw_window locked s

pub calls : List Call → Screen → Screen
unfolding call
calls [] s = s
calls (c ∷ cs) s = calls cs (call c s)

-- The window that is held after these events, where each is in order: a window is attached when none is, drawn on
-- only while it is held, and released once.
abbrev attached : ℕ → Option (Option ℕ) → Option (Option ℕ)
attached w (some none) = some (some w)
attached w (some (some v)) = none
attached w none = none

abbrev is_held : ℕ → Option (Option ℕ) → Option ℕ → Option (Option ℕ)
is_held w (some (some v)) after = if v == w then some after else none
is_held w (some none) after = none
is_held w none after = none

pub held : List WindowEvent → Option (Option ℕ)
held [] = some none
held (fitted w ∷ es) = attached w (held es)
held (drawn w ∷ es) = is_held w (held es) (some w)
held (released w ∷ es) = is_held w (held es) none

is_held_lem :
    (w : ℕ) (before : Option (Option ℕ)) (after : Option ℕ)
    → before ≡ some (some w)
    → is_held w before after ≡ some after
is_held_lem w before after h =
    let same : (w == w) ≡ true = ground arith in
    ap (λ b. is_held w b after) h ∙ ap (λ t. if t then some after else none) same

held-release :
    (window : Option ℕ) (log : List WindowEvent)
    → held log ≡ some window
    → held (release window log) ≡ some none
unfolding held
held-release none log h = h
held-release (some w) log h = is_held_lem w (held log) none h

held-fit :
    (new : Option ℕ) (log : List WindowEvent) → held log ≡ some none → held (fit new log) ≡ some new
unfolding held
held-fit none log h = h
held-fit (some w) log h = ap (attached w) h

held-draw_on :
    (locked : Bool) (window : Option ℕ) (log : List WindowEvent)
    → held log ≡ some window
    → held (draw_on locked window log) ≡ some window
unfolding held
held-draw_on locked none log h = h
held-draw_on true (some w) log h = is_held_lem w (held log) (some w) h
held-draw_on false (some w) log h = h

calls-held :
    (cs : List Call) (s : Screen)
    → held s.log ≡ some s.window
    → held (calls cs s).log ≡ some (calls cs s).window
unfolding calls set_window draw_window
calls-held [] s h = h
calls-held (attaches new ∷ cs) s h =
    calls-held cs (set_window new s)
      (held-fit new (release s.window s.log) (held-release s.window s.log h))
calls-held (draws locked ∷ cs) s h =
    calls-held cs (draw_window locked s) (held-draw_on locked s.window s.log h)

abbrev pub start : Screen
start = record { window = none; log = [] }

-- However the app's changes of the window and a script's drawing follow each other: a window is attached when
-- none is held, drawn on only while it is held, and released once; and the one that is held is `g_window`.
pub windows_in_order : (cs : List Call) → let s = calls cs start in held s.log ≡ some s.window
unfolding held
windows_in_order cs = calls-held cs start refl
