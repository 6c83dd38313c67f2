-- ===== src/Location/Reading.antt =====
-- What `location_read` gives: a fix that is newer than the last, or None in time.
use upy_android.Prelude.{
  ℕ, zero, suc, ◌+◌, ◌*◌, ◌/◌, ◌≤◌, ◌<◌, ◌≡◌, ◌≢◌, Bool, none, some, arith, ℕ_discrete,
  Option-cases, inl, inr,
}
use upy_android.Prelude.Ints.{ℤ, pos}
use upy_android.Prelude.Raise.{returned}
use upy_android.Location.{Fix, Items, items, Round, read_fix, read_loop, read}

-- How long a round waits, at most, for a fix.
abbrev pub wait_ms : ℕ
wait_ms = 5

module _ {Double : Type 0} (is_nan : Double → Bool) where
  loop_ends :
      (rounds : ℕ → Round is_nan) (timeout_ms begun k n j read_seq : ℕ)
      → k ≤ j
      → j < k + n
      → begun + timeout_ms ≤ (rounds j).now
      → read_loop is_nan rounds (pos timeout_ms) begun k n read_seq ≢ none
  unfolding read_loop read_fix
  loop_ends rounds timeout_ms begun k zero j read_seq p q h = absurd (omega arith)
  loop_ends rounds timeout_ms begun k (suc n) j read_seq p q h = elim (ℕ_discrete k j) [
    | yes e ↦ let here : begun + timeout_ms ≤ (rounds k).now = rw e h in ground arith
    | no e ↦
        let same =
          loop_ends rounds timeout_ms begun (k + 1) n j read_seq (omega arith) (omega arith) h in
        let new =
          loop_ends rounds timeout_ms begun (k + 1) n j (rounds k).seq (omega arith) (omega arith)
            h in
        ground (arith, same, new)
  ]

  -- With a timeout of 0 ms or more, and rounds that each take at least the 5 ms that they wait, the timeout
  -- over 5 and one more round are enough: `read` returns or raises.
  pub read_ends :
      (rounds : ℕ → Round is_nan) (timeout_ms begun fuel read_seq : ℕ)
      → timeout_ms / 5 + 2 ≤ fuel
      → ((k : ℕ) → begun + wait_ms * k ≤ (rounds k).now)
      → read is_nan rounds (pos timeout_ms) begun fuel read_seq ≢ none
  unfolding read
  read_ends rounds timeout_ms begun fuel read_seq h c =
      loop_ends rounds timeout_ms begun 0 fuel (timeout_ms / 5 + 1) read_seq (omega arith)
        (omega arith) (let last = c (timeout_ms / 5 + 1) in omega (arith, last))

  -- What is found is a fix of a round, of this number, which is above the last one read.
  abbrev pub Newer : (ℕ → Round is_nan) → ℕ → Items is_nan → ℕ → Type 0
  Newer rounds read_seq found seq =
      (j : ℕ) × ((fix : Fix is_nan) × (((rounds j).fix ≡ some fix)
          × ((found ≡ items is_nan fix) × ((fix.seq ≡ seq) × (read_seq < seq)))))

  Newer-after :
      (rounds : ℕ → Round is_nan) (last read_seq : ℕ) (found : Items is_nan) (seq : ℕ)
      → read_seq ≤ last
      → Newer rounds last found seq
      → Newer rounds read_seq found seq
  Newer-after rounds last read_seq found seq p (j, (fix, (a, (b, (c, d))))) =
      (j, (fix, (a, (b, (c, omega (arith, p, d))))))

  loop-Newer :
      (rounds : ℕ → Round is_nan) (timeout_ms : ℤ) (begun k n read_seq : ℕ) (found : Items is_nan)
      (seq : ℕ)
      → ((j : ℕ) → k ≤ j → read_seq ≤ (rounds j).seq)
      → ((i j : ℕ) → i ≤ j → (rounds i).seq ≤ (rounds j).seq)
      → ((j : ℕ) (fix : Fix is_nan) → (rounds j).fix ≡ some fix → (rounds j).seq ≤ fix.seq)
      → read_loop is_nan rounds timeout_ms begun k n read_seq ≡ some (returned (some found), seq)
      → Newer rounds read_seq found seq
  unfolding read_loop read_fix
  loop-Newer rounds timeout_ms begun k zero read_seq found seq old up new e = ground (arith, e)
  loop-Newer rounds timeout_ms begun k (suc n) read_seq found seq old up new e =
      let here = old k (omega arith) in
      let next =
        loop-Newer rounds timeout_ms begun (k + 1) n read_seq found seq (λ j p. old j (omega arith))
          up new in
      let after =
        λ (h : read_loop is_nan rounds timeout_ms begun (k + 1) n (rounds k).seq
            ≡ some (returned (some found), seq)).
          Newer-after rounds (rounds k).seq read_seq found seq here (
            loop-Newer rounds timeout_ms begun (k + 1) n (rounds k).seq found seq
              (λ j p. up k j (omega arith)) up new h) in
      elim (ℕ_discrete (rounds k).seq read_seq) [
        | yes same ↦ next (ground (arith, e, same))
        | no other ↦ elim (Option-cases (rounds k).fix) [
          | inl none_here ↦ after (ground (arith, e, other, none_here))
          | inr (fix, some_here) ↦
              let n = new k fix some_here in
              elim (ℕ_discrete fix.seq read_seq) [
                | yes old_fix ↦ absurd (omega arith)
                | no newer ↦
                    let same_seq : fix.seq ≡ seq = ground (arith, e, other, some_here, newer) in
                    (
                      k,
                      (
                        fix,
                        (
                          some_here,
                          (
                            ground (arith, e, other, some_here, newer),
                            (same_seq, omega (arith, same_seq, n, here, other)),
                          ),
                        ),
                      ),
                    )
              ]
        ]
      ]

  -- When the service numbers its fixes upwards, and a fix that is fetched in a round is not older than the
  -- newest number of that round: what `read` returns is a fix that a round fetched, newer than every fix that
  -- was read before, and its number is the one that counts as read.
  pub read-Newer :
      (rounds : ℕ → Round is_nan) (timeout_ms : ℤ) (begun fuel read_seq : ℕ) (found : Items is_nan)
      (seq : ℕ)
      → read_seq ≤ (rounds 0).seq
      → ((i j : ℕ) → i ≤ j → (rounds i).seq ≤ (rounds j).seq)
      → ((j : ℕ) (fix : Fix is_nan) → (rounds j).fix ≡ some fix → (rounds j).seq ≤ fix.seq)
      → read is_nan rounds timeout_ms begun fuel read_seq ≡ some (returned (some found), seq)
      → Newer rounds read_seq found seq
  unfolding read
  read-Newer rounds timeout_ms begun fuel read_seq found seq first up new e =
      loop-Newer rounds timeout_ms begun 0 fuel read_seq found seq
        (λ j p. let u = up 0 j p in omega arith) up new e
