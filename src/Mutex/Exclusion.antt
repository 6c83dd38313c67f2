-- ===== src/Mutex/Exclusion.antt =====
-- Mutual exclusion.
use upy_android.Prelude.{
  ℕ, ◌≡◌, ◌≢◌, refl, sym, ap, ◌∙◌, ◌⊎◌, inl, inr, true, false, arith, ℕ_discrete,
}
use mathlib.Core.Path.{subst}
use upy_android.Mutex.{Mutex, init0, unlock}
use upy_android.Mutex.Threads.{
  Place, outside, flagged, inside, matched, Access, busy, same_thread, set_flag, store_tid,
  match_tid, other_tid, clear_flag, System, by_thread, Reach, start, then_step,
}

-- A thread between its test-and-set and its clear.
abbrev pub Holding : Place → Type 0
Holding outside = ⊥
Holding flagged = Unit {0}
Holding inside = Unit {0}
Holding matched = Unit {0}

-- One that has stored its tid.
abbrev Stored : Place → Type 0
Stored outside = ⊥
Stored flagged = ⊥
Stored inside = Unit {0}
Stored matched = Unit {0}

-- Nobody holds the mutex, or one thread does and the others are outside.
data Inv (s : System) : Type 0 where
  free : s.mutex.lock ≡ false → ((t : ℕ) → s.places t ≡ outside) → Inv s
  held :
      (h : ℕ)
      → s.mutex.lock ≡ true
      → Holding (s.places h)
      → (Stored (s.places h) → s.mutex.tid ≡ h)
      → ((t : ℕ) → t ≢ h → s.places t ≡ outside)
      → Inv s

outside_moves :
    {tid : ℕ} {m m' : Mutex} {p' : Place}
    → Access tid m outside m' p'
    → ((m' ≡ m) × (p' ≡ outside)) ⊎ ((m.lock ≡ false) × (m'.lock ≡ true) × (p' ≡ flagged))
outside_moves (busy e) = inl (refl, refl)
outside_moves (same_thread e) = inl (refl, refl)
outside_moves (set_flag e) = inr (e, refl, refl)

moves-Holding :
    {tid : ℕ} {m m' : Mutex} {p p' : Place}
    → Access tid m p m' p'
    → Holding p
    → (Stored p → m.tid ≡ tid)
    → (Holding p' × (m'.lock ≡ m.lock) × (Stored p' → m'.tid ≡ tid))
      ⊎ ((p' ≡ outside) × (m'.lock ≡ false))
moves-Holding (busy e) h o = absurd h
moves-Holding (same_thread e) h o = absurd h
moves-Holding (set_flag e) h o = absurd h
moves-Holding store_tid h o = inl (tt, refl, λ x. refl)
moves-Holding (match_tid e) h o = inl (tt, refl, λ x. e)
moves-Holding (other_tid e) h o = inl (tt, refl, o)
moves-Holding clear_flag h o = inr (refl, refl)

-- A thread that moves, and the others that stay, are all outside if they are apart.
all_outside :
    (tid : ℕ) (places : ℕ → Place)
    → places tid ≡ outside
    → ((t : ℕ) → t ≢ tid → places t ≡ outside)
    → (t : ℕ) → places t ≡ outside
all_outside tid places own others t = elim (ℕ_discrete t tid) [
  | yes e ↦ ap places e ∙ own
  | no ne ↦ others t ne
]

-- If the thread that moves stays outside, all but the holder are outside still.
all_but :
    (tid h : ℕ) (places old : ℕ → Place)
    → places tid ≡ outside
    → ((t : ℕ) → t ≢ h → old t ≡ outside)
    → ((t : ℕ) → t ≢ tid → places t ≡ old t)
    → (t : ℕ) → t ≢ h
    → places t ≡ outside
all_but tid h places old own out same t ne = elim (ℕ_discrete t tid) [
  | yes e ↦ ap places e ∙ own
  | no moved ↦ same t moved ∙ out t ne
]

-- A thread that holds the mutex is the holder.
only :
    (h t : ℕ) (places : ℕ → Place)
    → ((t : ℕ) → t ≢ h → places t ≡ outside)
    → Holding (places t)
    → t ≡ h
only h t places out ht = elim (ℕ_discrete t h) [
  | yes e ↦ e
  | no ne ↦ absurd (subst Holding (out t ne) ht)
]

true-ne-false : true ≢ false
true-ne-false e = ground (arith, e)

unlocks : (m : Mutex) (tid : ℕ) → m.tid ≡ tid → (unlock m tid).0 ≡ true
unfolding unlock
unlocks m tid e = ground (arith, e)

free-step :
    {s : System} (tid : ℕ) {m : Mutex} {places : ℕ → Place}
    → s.mutex.lock ≡ false
    → ((t : ℕ) → s.places t ≡ outside)
    → Access tid s.mutex (s.places tid) m (places tid)
    → ((other : ℕ) → other ≢ tid → places other ≡ s.places other)
    → Inv (record { mutex = m; places = places })
free-step {s} tid {m} {places} unlocked out a same =
    let others = λ (t : ℕ) (ne : t ≢ tid). same t ne ∙ out t in
    elim (outside_moves (subst (λ p. Access tid s.mutex p m (places tid)) (out tid) a)) [
      | inl stays ↦
          free (ap (λ (x : Mutex). x.lock) stays.0 ∙ unlocked)
            (all_outside tid places stays.1 others)
      | inr takes ↦
          held tid takes.1 (subst Holding (sym takes.2) tt) (λ st. absurd (subst Stored takes.2 st))
            others
    ]

holder-step :
    {s : System} (tid : ℕ) {m : Mutex} {places : ℕ → Place}
    → s.mutex.lock ≡ true
    → Holding (s.places tid)
    → (Stored (s.places tid) → s.mutex.tid ≡ tid)
    → ((t : ℕ) → t ≢ tid → s.places t ≡ outside)
    → Access tid s.mutex (s.places tid) m (places tid)
    → ((other : ℕ) → other ≢ tid → places other ≡ s.places other)
    → Inv (record { mutex = m; places = places })
holder-step {s} tid {m} {places} locked holding owner out a same =
    let others = λ (t : ℕ) (ne : t ≢ tid). same t ne ∙ out t ne in
    elim (moves-Holding a holding owner) [
      | inl goes_on ↦ held tid (goes_on.1 ∙ locked) goes_on.0 goes_on.2 others
      | inr leaves ↦ free leaves.1 (all_outside tid places leaves.0 others)
    ]

held-step :
    {s : System} (tid : ℕ) {m : Mutex} {places : ℕ → Place} (h : ℕ)
    → s.mutex.lock ≡ true
    → Holding (s.places h)
    → (Stored (s.places h) → s.mutex.tid ≡ h)
    → ((t : ℕ) → t ≢ h → s.places t ≡ outside)
    → Access tid s.mutex (s.places tid) m (places tid)
    → ((other : ℕ) → other ≢ tid → places other ≡ s.places other)
    → Inv (record { mutex = m; places = places })
held-step {s} tid {m} {places} h locked holding owner out a same = elim (ℕ_discrete tid h) [
  | yes e ↦
      holder-step tid locked (subst (λ t. Holding (s.places t)) (sym e) holding)
        (subst (λ t. Stored (s.places t) → s.mutex.tid ≡ t) (sym e) owner)
        (λ t ne. out t (λ q. ne (q ∙ sym e))) a same
  | no ne ↦ elim (outside_moves (subst (λ p. Access tid s.mutex p m (places tid)) (out tid ne) a)) [
    | inl stays ↦
        let still : s.places h ≡ places h = sym (same h (λ q. ne (sym q))) in
        held h (ap (λ (x : Mutex). x.lock) stays.0 ∙ locked) (subst Holding still holding)
          (λ st. ap (λ (x : Mutex). x.tid) stays.0 ∙ owner (subst Stored (sym still) st))
          (all_but tid h places s.places stays.1 out same)
    | inr takes ↦ absurd (true-ne-false (sym locked ∙ takes.0))
  ]
]

Reach-Inv : {s : System} → Reach s → Inv s
unfolding init0
Reach-Inv start = free refl (λ t. refl)
Reach-Inv (then_step r (by_thread tid a same)) = elim (Reach-Inv r) [
  | free unlocked out ↦ free-step tid unlocked out a same
  | held h locked holding owner out ↦ held-step tid h locked holding owner out a same
]

-- However threads that unlock only what they hold interleave, at most one of them is between its
-- successful test-and-set and its clear. And while a thread is past its store of the tid, the
-- stored tid is its own, so its `mutex_unlock` succeeds.
pub exclusion :
    {s : System} (a b : ℕ)
    → Reach s
    → Holding (s.places a)
    → (Holding (s.places b) → a ≡ b) × (s.places a ≡ inside → (unlock s.mutex a).0 ≡ true)
exclusion {s} a b r ha = elim (Reach-Inv r) [
  | free unlocked out ↦ absurd (subst Holding (out a) ha)
  | held h locked holding owner out ↦
      let at_h = λ (t : ℕ) (ht : Holding (s.places t)). only h t s.places out ht in
      (
        λ hb. at_h a ha ∙ sym (at_h b hb),
        λ e. unlocks s.mutex a (
            owner (subst (λ t. Stored (s.places t)) (at_h a ha) (subst Stored (sym e) tt))
            ∙ sym (at_h a ha)),
      )
]
