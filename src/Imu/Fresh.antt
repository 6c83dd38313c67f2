-- ===== src/Imu/Fresh.antt =====
-- What a read of a sensor returns: the newest of the first events that come after the call.
use upy_android.Prelude.{
  ℕ, zero, suc, ◌+◌, ◌≤◌, ◌<◌, ◌≡◌, refl, ap, ◌∙◌, Bool, true, false, Option, none, some, List, [],
  ◌∷◌, ◌++◌, if◌then◌else◌, arith, Bool-cases, Option-cases, ℕ_discrete, inl, inr,
}
use upy_android.Prelude.Raise.{returned}
use upy_android.Imu.{
  Sensor, same, Device, Event, Imu, Round, Waited, got, timed_out, interrupted, drain, wait_rounds,
  wait_for_fresh_event, read_sensor, read_present, ensure_enabled, result,
}

module _ (Value : Type 0) where
  -- The last event of a sensor.
  unfoldable pub newest : Sensor → List (Event Value) → Option Value
  newest s [] = none
  newest s (e ∷ es) = elim (newest s es) [
    | some v ↦ some v
    | none ↦ if same e.sensor s then some e.value else none
  ]

  abbrev pub or_else : Option Value → Option Value → Option Value
  or_else none o = o
  or_else (some v) o = some v

  drain-newest' :
      (s : Sensor) (es : List (Event Value)) (out : Option Value)
      → drain Value s out es ≡ or_else (newest s es) out
  unfolding drain newest
  drain-newest' s [] out = refl
  drain-newest' s (e ∷ es) out = drain-newest' s es _ ∙ split (newest s es) (same e.sensor s)
    where
      split :
          (o : Option Value) (b : Bool)
          → or_else o (if b then some e.value else out)
            ≡ or_else (elim o [ some v ↦ some v | none ↦ if b then some e.value else none ]) out
      split none true = refl
      split none false = refl
      split (some v) b = refl

  pub drain-newest : (s : Sensor) (es : List (Event Value)) → drain Value s none es ≡ newest s es
  drain-newest s es = drain-newest' s es none ∙ last (newest s es)
    where
      last : (o : Option Value) → or_else o none ≡ o
      last none = refl
      last (some v) = refl

  -- The round in which the wait ends.
  pub record IsFirst (s : Sensor) (rounds : ℕ → Round Value) (k n : ℕ) (v : Value) (j : ℕ)
      : Type 0 where
    pub from : k ≤ j
    pub before : j < k + n
    pub gives : newest s (rounds j).events ≡ some v
    pub earlier : (i : ℕ) → k ≤ i → i < j → newest s (rounds i).events ≡ none

  wait-IsFirst :
      (s : Sensor) (rounds : ℕ → Round Value) (k n : ℕ) (m : Imu Value) (v : Value)
      → m.events ≡ []
      → (wait_rounds Value s rounds k n m).0 ≡ got v
      → (j : ℕ) × IsFirst s rounds k n v j
  unfolding wait_rounds
  wait-IsFirst s rounds k zero m v z e = absurd (ground (arith, e))
  wait-IsFirst s rounds k (suc n) m v z e =
      let d =
        ap (λ es. drain Value s none (es ++ (rounds k).events)) z
        ∙ drain-newest s (rounds k).events in
      elim (Option-cases (newest s (rounds k).events)) [
        | inr (u, f) ↦ (
          k,
          record {
            from = omega arith;
            before = omega arith;
            gives = f ∙ ap some (let h = d ∙ f in ground (arith, e, h));
            earlier = λ i p q. absurd (omega arith);
          },
        )
        | inl f ↦
            let h = d ∙ f in
            let (j, g) =
              wait-IsFirst s rounds (k + 1) n (record m { events = [] }) v refl
                (ground (arith, e, h)) in
            (
              j,
              record {
                from = let q = g.from in omega (arith, q);
                before = let q = g.before in omega (arith, q);
                gives = g.gives;
                earlier = λ i p q. elim (ℕ_discrete i k) [
                  | yes y ↦ rw y f
                  | no n ↦ g.earlier i (omega arith) q
                ];
              },
            )
      ]

  module _ {Result : Type 0} where
    result_got :
        (convert : Value → Result) (x : Waited Value × Imu Value) (r : Result) (m' : Imu Value)
        → result Value convert (some x) ≡ some (returned r, m')
        → (v : Value) × ((x.0 ≡ got v) × (r ≡ convert v))
    result_got convert (got v, m) r m' e = (v, (refl, ground (arith, e)))
    result_got convert (timed_out, m) r m' e = absurd (ground (arith, e))
    result_got convert (interrupted, m) r m' e = absurd (ground (arith, e))

    present_fresh :
        (s : Sensor) (convert : Value → Result) (missing : Result) (rounds : ℕ → Round Value)
        (m : Imu Value) (r : Result) (m' : Imu Value)
        → m.present s ≡ true
        → read_present Value s convert missing rounds m ≡ some (returned r, m')
        → (j : ℕ) × ((v : Value) × (IsFirst s rounds 0 100 v j × (r ≡ convert v)))
    unfolding wait_for_fresh_event
    present_fresh s convert missing rounds m r m' p e = elim (Bool-cases m.queue) [
      | inr q ↦ absurd (ground (arith, e))
      | inl q ↦
          let (v, (g, h)) =
            result_got convert (wait_rounds Value s rounds 0 100 (record m { events = [] })) r m'
              (ground (arith, e)) in
          let (j, f) = wait-IsFirst s rounds 0 100 (record m { events = [] }) v refl g in
          (j, (v, (f, h)))
    ]

  -- A read of a sensor that returns, where the device has the sensor, has waited for the first round that
  -- brings an event of the sensor, at most 100 rounds, and returns what the newest event of that round
  -- makes: events from before the call, and older ones of the round, are dropped.
  pub read_fresh :
      {Result : Type 0} (d : Device) (s : Sensor) (convert : Value → Result) (missing : Result)
      (rounds : ℕ → Round Value) (m : Imu Value) (r : Result) (m' : Imu Value)
      → (ensure_enabled Value d s m).present s ≡ true
      → read_sensor Value d s convert missing rounds m ≡ some (returned r, m')
      → (j : ℕ) × ((v : Value) × (IsFirst s rounds 0 100 v j × (r ≡ convert v)))
  unfolding read_sensor wait_for_fresh_event
  read_fresh d s convert missing rounds m r m' p e =
      present_fresh s convert missing rounds (ensure_enabled Value d s m) r m' p e
