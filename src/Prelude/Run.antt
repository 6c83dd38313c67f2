-- ===== src/Prelude/Run.antt =====
-- Calls that change a state, raise, or fault on a freed node: a monad, and what holds at the end of a run.
use mathlib.Core.Path.{◌≡◌, refl}
use native.Mathlib.Omega.{arith}
use mathlib.Core.Bool.{Bool, true, false}
use mathlib.Core.Option.{Option, none, some}
use upy_android.Prelude.Raise.{Exn, Outcome, returned, raised}

pub data Run (W A : Type 0) : Type 0 where
  ended : Outcome A → W → Run W A
  fault : Run W A

abbrev pub M : Type 0 → Type 0 → Type 0
M W A = W → Run W A

module _ {W A : Type 0} where
  abbrev pub pure : A → M W A
  pure a w = ended (returned a) w

  abbrev pub raise : Exn → M W A
  raise e w = ended (raised e) w

  abbrev pub get : (W → A) → M W A
  get f w = ended (returned (f w)) w

  -- An answer that may be missing.
  abbrev pub or_raise : Exn → Option A → M W A
  or_raise e none = raise e
  or_raise e (some a) = pure a

  abbrev pub or_fault : Option A → M W A
  or_fault none w = fault
  or_fault (some a) w = ended (returned a) w

module _ {W : Type 0} where
  abbrev pub modify : (W → W) → M W (Unit {0})
  modify f w = ended (returned tt) (f w)

  abbrev pub check : Bool → Exn → M W (Unit {0})
  check true e = pure tt
  check false e = raise e

module _ {W A B : Type 0} where
  abbrev pub and_then : Run W A → (A → M W B) → Run W B
  and_then (ended (returned a) w) k = k a w
  and_then (ended (raised e) w) k = ended (raised e) w
  and_then fault k = fault

  infixl 5 ◌>>=◌ ◌>>◌
  abbrev pub ◌>>=◌ : M W A → (A → M W B) → M W B
  m >>= k = λ w. and_then (m w) k

  abbrev pub ◌>>◌ : M W A → M W B → M W B
  m >> n = m >>= λ _. n

module _ {W A : Type 0} where
  abbrev pub rescue : Run W A → M W (Unit {0}) → Run W A
  rescue (ended (returned a) w) h = ended (returned a) w
  rescue (ended (raised e) w) h = and_then (h w) (λ _. raise e)
  rescue fault h = fault

  -- A handler of `nlr_push` that passes the exception on.
  abbrev pub on_raise : M W A → M W (Unit {0}) → M W A
  on_raise m h w = rescue (m w) h

  -- What holds of an outcome and the state that it leaves; there is no fault.
  pub data Ends (Q : Outcome A → W → Type 0) : Run W A → Type 0 where
    ends : {r : Outcome A} {w : W} → Q r w → Ends Q (ended r w)

  pub weaken :
      {P Q : Outcome A → W → Type 0} {r : Run W A}
      → Ends P r
      → ((o : Outcome A) (w : W) → P o w → Q o w)
      → Ends Q r
  weaken (ends p) f = ends (f _ _ p)

-- What holds where a call returns, and where it raises.
module _ {W A B : Type 0} {P : Outcome A → W → Type 0} {Q : Outcome B → W → Type 0} where
  pub bind :
      {r : Run W A} {k : A → M W B}
      → Ends P r
      → ((a : A) (w : W) → P (returned a) w → Ends Q (k a w))
      → ((e : Exn) (w : W) → P (raised e) w → Q (raised e) w)
      → Ends Q (and_then r k)
  bind (ends {r = returned a} {w} p) f g = f a w p
  bind (ends {r = raised e} {w} p) f g = ends (g e w p)

-- What holds where a guarded call returns, and after its handler.
module _ {W A : Type 0} {P Q : Outcome A → W → Type 0} where
  pub guarded :
      {r : Run W A} {h : M W (Unit {0})}
      → Ends P r
      → ((a : A) (w : W) → P (returned a) w → Q (returned a) w)
      → ((e : Exn) (w : W) → P (raised e) w → Ends (λ o w'. (e : Exn) → Q (raised e) w') (h w))
      → Ends Q (rescue r h)
  guarded (ends {r = returned a} {w} p) f g = ends (f a w p)
  guarded (ends {r = raised e} {w} p) f g = bind (g e w p) (λ t w' q. ends (q e)) (λ e w' q. q e)

-- A run that returns has returned from each of its calls.
module _ {W A B : Type 0} where
  pub returned_from :
      (r : Run W A) (k : A → M W B) {b : B} {w' : W}
      → and_then r k ≡ ended (returned b) w'
      → (a : A) × ((w : W) × ((r ≡ ended (returned a) w) × (k a w ≡ ended (returned b) w')))
  returned_from (ended (returned a) w) k e = (a, (w, (refl, e)))
  returned_from (ended (raised x) w) k e = absurd (ground (arith, e))
  returned_from fault k e = absurd (ground (arith, e))

module _ {W A : Type 0} where
  never_returns :
      (r : Run W (Unit {0})) (x : Exn) {a : A} {w' : W}
      → and_then r (λ _. raise x) ≡ ended (returned a) w'
      → ⊥
  never_returns (ended (returned t) w) x e = ground (arith, e)
  never_returns (ended (raised y) w) x e = ground (arith, e)
  never_returns fault x e = ground (arith, e)

  pub returned_on_raise :
      (r : Run W A) (h : M W (Unit {0})) {a : A} {w' : W}
      → rescue r h ≡ ended (returned a) w'
      → r ≡ ended (returned a) w'
  returned_on_raise (ended (returned a) w) h e = e
  returned_on_raise (ended (raised x) w) h e = absurd (never_returns (h w) x e)
  returned_on_raise fault h e = e
