-- ===== src/Litert/Version.antt =====
-- The string that `version()` returns, which selects the NPU runtime.
mod Tests
use upy_android.Prelude.{
  ℕ, ◌+◌, ◌*◌, ◌≤◌, ◌<◌, ◌≡◌, refl, ap, ◌∙◌, Bool, true, false, Option, none, some, List, [], ◌∷◌,
  ◌++◌, map, ◌==◌, ◌||◌, arith, if◌then◌else◌, length, length-append, ltb, inl, inr, ◌≢◌, ◌⊎◌,
  ℕ_discrete,
}

abbrev pub comma : ℕ
comma = b','

abbrev pub clean : ℕ → ℕ
clean c = if c == comma || c == b' ' then b'_' else c

-- `soc_property` for the value of a system property; an empty one is unknown.
pub soc_property : List ℕ → List ℕ
soc_property [] = b'u' ∷ b'n' ∷ b'k' ∷ b'n' ∷ b'o' ∷ b'w' ∷ b'n' ∷ []
soc_property (c ∷ cs) = map clean (c ∷ cs)

-- `litert_version`, where `value_max` is PROP_VALUE_MAX; `none` where `snprintf` counts more than its buffer
-- holds, so that the string is read behind it.
pub version : ℕ → List ℕ → List ℕ → List ℕ → Option (List ℕ)
unfolding soc_property
version value_max litert maker model =
    let s = litert ++ (comma ∷ (soc_property maker ++ (comma ∷ soc_property model))) in
    if ltb (length s) (16 + 2 * value_max) then some s else none

-- A property as it is shown: each comma and each space is an underscore, and the other bytes are as they were.
pub data Cleaned : List ℕ → List ℕ → Type 0 where
  end : Cleaned [] []
  kept : {c : ℕ} {cs ds : List ℕ} → c ≢ comma → c ≢ b' ' → Cleaned cs ds → Cleaned (c ∷ cs) (c ∷ ds)
  replaced :
      {c : ℕ} {cs ds : List ℕ}
      → (c ≡ comma) ⊎ (c ≡ b' ')
      → Cleaned cs ds
      → Cleaned (c ∷ cs) (b'_' ∷ ds)

-- "unknown" stands for an empty property.
abbrev pub Shown : List ℕ → List ℕ → Type 0
Shown [] s = s ≡ b'u' ∷ b'n' ∷ b'k' ∷ b'n' ∷ b'o' ∷ b'w' ∷ b'n' ∷ []
Shown (c ∷ cs) s = Cleaned (c ∷ cs) s

map-Cleaned : (cs : List ℕ) → Cleaned cs (map clean cs)
map-Cleaned [] = end
map-Cleaned (c ∷ cs) = elim (ℕ_discrete c comma) [
  | yes e ↦
      let shown : clean c ≡ b'_' = ground (arith, e) in rw shown (replaced (inl e) (map-Cleaned cs))
  | no n ↦ elim (ℕ_discrete c b' ') [
    | yes e ↦
        let shown : clean c ≡ b'_' = ground (arith, e) in
        rw shown (replaced (inr e) (map-Cleaned cs))
    | no k ↦ let same : clean c ≡ c = ground (arith, n, k) in rw same (kept n k (map-Cleaned cs))
  ]
]

soc_property-Shown : (v : List ℕ) → Shown v (soc_property v)
unfolding soc_property
soc_property-Shown [] = refl
soc_property-Shown (c ∷ cs) = map-Cleaned (c ∷ cs)

-- The parts of a string between its commas.
abbrev pub add_to_first : ℕ → List (List ℕ) → List (List ℕ)
add_to_first c [] = (c ∷ []) ∷ []
add_to_first c (p ∷ ps) = (c ∷ p) ∷ ps

pub split : List ℕ → List (List ℕ)
split [] = [] ∷ []
split (c ∷ cs) = let rest = split cs in if c == comma then [] ∷ rest else add_to_first c rest

unfoldable pub has_comma : List ℕ → Bool
has_comma [] = false
has_comma (c ∷ cs) = c == comma || has_comma cs

split_at : (p cs : List ℕ) → has_comma p ≡ false → split (p ++ (comma ∷ cs)) ≡ p ∷ split cs
unfolding split has_comma
split_at [] cs h = refl
split_at (c ∷ p) cs h = ground (arith, h, split_at p cs)

split_last : (p : List ℕ) → has_comma p ≡ false → split p ≡ p ∷ []
unfolding split has_comma
split_last [] h = refl
split_last (c ∷ p) h = ground (arith, h, split_last p)

clean_lem : (c : ℕ) → (clean c == comma) ≡ false
clean_lem c = ground arith

map-clean : (cs : List ℕ) → has_comma (map clean cs) ≡ false
unfolding has_comma
map-clean [] = refl
map-clean (c ∷ cs) = rw (clean_lem c) (map-clean cs)

soc-has_comma : (v : List ℕ) → has_comma (soc_property v) ≡ false
unfolding soc_property has_comma
soc-has_comma [] = refl
soc-has_comma (c ∷ cs) = map-clean (c ∷ cs)

length-map-clean : (cs : List ℕ) → length (map clean cs) ≡ length cs
length-map-clean [] = refl
length-map-clean (c ∷ cs) = omega (arith, length-map-clean cs)

soc-length : (m : ℕ) (v : List ℕ) → 7 < m → length v < m → length (soc_property v) < m
unfolding soc_property
soc-length m [] k h = k
soc-length m (c ∷ cs) k h = omega (arith, length-map-clean cs)

-- For system properties of less than PROP_VALUE_MAX bytes, which is more than 7, and a LiteRT version of less
-- than 16 without a comma: `version()` fits its buffer, and cut at its commas it gives just three parts, the
-- LiteRT version, the maker and the model, where a comma or a space in the last two is an underscore and
-- "unknown" stands for an empty one.
pub version-split :
    (value_max : ℕ) (litert maker model : List ℕ)
    → 7 < value_max
    → length maker < value_max
    → length model < value_max
    → length litert < 16
    → has_comma litert ≡ false
    → (s : List ℕ) × ((version value_max litert maker model ≡ some s)
        × ((p : List ℕ) × ((q : List ℕ) × ((split s ≡ litert ∷ p ∷ q ∷ [])
                × (Shown maker p × Shown model q)))))
unfolding version
version-split value_max litert maker model big short1 short2 short3 clear =
    let s = litert ++ (comma ∷ (soc_property maker ++ (comma ∷ soc_property model))) in
    let l1 = length-append litert (comma ∷ (soc_property maker ++ (comma ∷ soc_property model))) in
    let l2 = length-append (soc_property maker) (comma ∷ soc_property model) in
    let m1 = soc-length value_max maker big short1 in
    let m2 = soc-length value_max model big short2 in
    let fits : length s < 16 + 2 * value_max = omega (arith, l1, l2) in
    (
      s,
      (
        ground (arith, fits),
        (
          soc_property maker,
          (
            soc_property model,
            (
              split_at litert _ clear
                  ∙ ap (λ ps. litert ∷ ps)
                      (split_at (soc_property maker) (soc_property model) (soc-has_comma maker)
                        ∙ ap (λ ps. soc_property maker ∷ ps)
                            (split_last (soc_property model) (soc-has_comma model))),
              (soc_property-Shown maker, soc_property-Shown model),
            ),
          ),
        ),
      ),
    )
