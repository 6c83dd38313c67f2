-- ===== src/Display/Painting.antt =====
-- Loops that paint: what they leave in the buffer, as the words that their rounds own.
use upy_android.Prelude.{
  ℕ, zero, suc, ◌+◌, ◌≤◌, ◌<◌, ◌≡◌, ◌≢◌, refl, sym, ◌∙◌, Option, some, arith, ℕ_discrete,
}
use mathlib.Core.Path.{subst}
use upy_android.Display.{for}

-- The words of `D` have their values, and the others are as before.
pub record Does (D : Type 0) (addr val : D → ℕ) (bits bits' : ℕ → ℕ) : Type 0 where
  pub painted : (d : D) → bits' (addr d) ≡ val d
  pub left : (i : ℕ) → ((d : D) → addr d ≢ i) → bits' i ≡ bits i

-- What the rounds of a loop own together.
abbrev pub Range : ℕ → ℕ → (ℕ → Type 0) → Type 0
Range lo n D = (j : ℕ) × ((lo ≤ j) × ((j < lo + n) × D j))

abbrev pub of_range : (lo n : ℕ) (D : ℕ → Type 0) → ((j : ℕ) → D j → ℕ) → Range lo n D → ℕ
of_range lo n D f (j, (_, (_, d))) = f j d

module _ (D : ℕ → Type 0) (addr val : (j : ℕ) → D j → ℕ) (body : ℕ → (ℕ → ℕ) → Option (ℕ → ℕ)) where
  -- A round ends and paints what it owns.
  abbrev pub Paints : ℕ → Type 0
  Paints j =
      (bits : ℕ → ℕ)
      → (bits' : ℕ → ℕ) × ((body j bits ≡ some bits') × Does (D j) (addr j) (val j) bits bits')

  -- Two rounds own no word together.
  abbrev pub IsApart : ℕ → ℕ → Type 0
  IsApart j k = j ≢ k → (d : D j) (e : D k) → addr j d ≢ addr k e

  pub for-Does :
      (lo n : ℕ) (bits : ℕ → ℕ)
      → ((j : ℕ) → j < lo + n → Paints j)
      → ((j k : ℕ) → j < lo + n → k < lo + n → IsApart j k)
      → (bits' : ℕ → ℕ) × ((for body lo n bits ≡ some bits')
          × Does (Range lo n D) (of_range lo n D addr) (of_range lo n D val) bits bits')
  unfolding for
  for-Does lo zero bits each apart = (
    bits,
    (refl, record { painted = λ d. absurd (omega (arith, d.1.0, d.1.1.0)); left = λ i h. refl }),
  )
  for-Does lo (suc n) bits each apart =
      let (b1, (e1, d1)) = each lo (omega arith) bits in
      let (b2, (e2, d2)) =
        for-Does (lo + 1) n b1 (λ j l. each j (omega arith))
          (λ j k l m. apart j k (omega arith) (omega arith)) in
      let first : (d : D lo) → b2 (addr lo d) ≡ val lo d = λ d.
        d2.left (addr lo d) (λ (k, (l, (m, e))) q.
          apart lo k (omega arith) (omega arith) (omega (arith, l)) d e (sym q))
        ∙ d1.painted d in
      (
        b2,
        (
          rw e1 e2,
          record {
            painted = λ (j, (l, (m, d))). elim (ℕ_discrete lo j) [
              | yes e ↦ subst (λ j. (d : D j) → b2 (addr j d) ≡ val j d) e first d
              | no e ↦ d2.painted (j, (omega (arith, l, e), (omega (arith, m), d)))
            ];
            left = λ i h.
                d2.left i (λ (k, (l, (m, e))). h (k, (omega (arith, l), (omega (arith, m), e))))
                ∙ d1.left i (λ d. h (lo, (omega arith, (omega arith, d))));
          },
        ),
      )
