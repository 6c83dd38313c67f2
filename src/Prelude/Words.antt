-- ===== src/Prelude/Words.antt =====
-- Unsigned words of the arm64 ABI, the only one that the app is built for, and memory cells.
use Prim.Native.Nat.{ℕ, ◌+◌, ◌-◌, ◌*◌, ◌%◌, ◌^◌, ◌<◌}
use mathlib.Core.Path.{◌≡◌}
use mathlib.Core.Logic.{◌≢◌}
use native.Mathlib.Decide.{ℕ_discrete}
use native.Mathlib.Omega.{arith}
use native.Mathlib.Nat.{mod-eq_of_lt, mod_self}
use upy_android.Prelude.Tests.{if◌then◌else◌, ◌==◌}

-- `size_t` and `uint64_t` arithmetic.
abbrev pub size_mod : ℕ
size_mod = 2 ^ 64

abbrev pub add_size : ℕ → ℕ → ℕ
add_size a b = (a + b) % size_mod

abbrev pub sub_size : ℕ → ℕ → ℕ
sub_size a b = (a + size_mod - b) % size_mod

abbrev pub mul_size : ℕ → ℕ → ℕ
mul_size a b = a * b % size_mod

-- A pointer is its address; no object stands at 0.
abbrev pub null : ℕ
null = 0

-- An array or a piece of memory: the value at each index.
module _ {ℓ} {A : Type ℓ} where
  abbrev pub update : (ℕ → A) → ℕ → A → ℕ → A
  update f i v j = if i == j then v else f j

  pub update_self : (f : ℕ → A) (i : ℕ) (v : A) → update f i v i ≡ v
  update_self f i v = ground arith

  pub update_ne : (f : ℕ → A) {i j : ℕ} (v : A) → i ≢ j → update f i v j ≡ f j
  update_ne f v h = ground arith

-- One step round a ring of `m` cells.
pub mod-next : (h m : ℕ) → h < m → (h + 1) % m ≡ (if h + 1 == m then 0 else h + 1)
mod-next h m p = elim (ℕ_discrete (h + 1) m) [
  | yes e ↦ rw e (ground (arith, mod_self m))
  | no n ↦ rw (mod-eq_of_lt {n = h + 1} {m = m} (omega arith)) (ground arith)
]
