-- ===== src/Litert/Version/Tests.antt =====
-- A version string of a device.
use upy_android.Prelude.{ℕ, ◌≡◌, refl, some, List, [], ◌∷◌, arith}
use upy_android.Litert.Version.{version, split, Shown, has_comma, version-split}

abbrev litert : List ℕ
litert = b'2' ∷ b'.' ∷ b'3' ∷ []

abbrev maker : List ℕ
maker = b'A' ∷ b',' ∷ b' ' ∷ b'B' ∷ []

version-split_example :
    (s : List ℕ) × ((version 92 litert maker [] ≡ some s)
      × ((p : List ℕ) × ((q : List ℕ) × ((split s ≡ litert ∷ p ∷ q ∷ [])
              × (Shown maker p × Shown [] q)))))
unfolding has_comma
version-split_example =
    version-split 92 litert maker [] (omega arith) (omega arith) (omega arith) (omega arith) refl
