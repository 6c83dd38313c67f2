-- ===== src/Mqtt/Deleting.antt =====
-- What `close_all` deletes, and what it cannot delete.
use upy_android.Prelude.{
  ℕ, ◌≡◌, ◌≢◌, refl, true, false, none, some, List, [], ◌∷◌, ◌==◌, ◌||◌, arith,
}
use upy_android.Prelude.Raise.{raised, memory_error}
use upy_android.Mqtt.{
  Node, Event, created, used, deleted, World, Args, Answers, add_client, with_ref, with_names,
  make_new, close_all, delete_all, get_str, is_other, is_on, port_or_default,
}
use upy_android.Mqtt.Registry.{has_ref, remove_ref, refs}
use upy_android.Mqtt.Inv.{Inv, live}

one_deleted :
    (r : ℕ) (rs : List ℕ) (log : List Event)
    → live log ≡ some (r ∷ rs)
    → live (deleted r ∷ used r ∷ log) ≡ some rs
unfolding live has_ref remove_ref
one_deleted r rs log h = let e : (r == r) ≡ true = ground arith in rw h (rw e (rw e refl))

live-delete_all :
    (ns : List Node) (log : List Event)
    → live log ≡ some (refs ns)
    → live (delete_all ns log) ≡ some []
unfolding delete_all refs
live-delete_all [] log h = h
live-delete_all (n ∷ ns) log h = live-delete_all ns _ (one_deleted n.global_ref (refs ns) log h)

-- `mqtt_close_all` in a state in order deletes every reference that is alive, each once, and uses none that
-- is not.
pub close_all_lem : (w : World) → Inv w → live (close_all w).log ≡ some []
unfolding close_all
close_all_lem w v = live-delete_all w.connections w.log v.alive

one_kept :
    (r s : ℕ) (rs : List ℕ) (log : List Event)
    → s ≢ r
    → live log ≡ some (r ∷ s ∷ rs)
    → live (deleted s ∷ used s ∷ log) ≡ some (r ∷ rs)
unfolding live has_ref remove_ref
one_kept r s rs log n h =
    let e : (s == s) ≡ true = ground arith in
    let f : (r == s) ≡ false = ground (arith, n) in rw h (rw f (rw e (rw f (rw e refl))))

live-delete_all_kept :
    (r : ℕ) (ns : List Node) (log : List Event)
    → has_ref r (refs ns) ≡ false
    → live log ≡ some (r ∷ refs ns)
    → live (delete_all ns log) ≡ some (r ∷ [])
unfolding delete_all refs has_ref
live-delete_all_kept r [] log f h = h
live-delete_all_kept r (n ∷ ns) log f h =
    live-delete_all_kept r ns _ (ground (arith, f))
      (one_kept r n.global_ref (refs ns) log (λ e. ground (arith, f, e)) h)

created_live :
    (r : ℕ) (w : World) → Inv w → live (created r ∷ w.log) ≡ some (r ∷ refs w.connections)
unfolding live
created_live r w v = rw v.alive refl

-- When the arguments are good and MqttShim gives a reference that is not in use, but the object cannot be
-- allocated: `make_new` raises MemoryError, and the reference stays alive, even after `close_all`.
pub make_new_leaks :
    (args : Args) (answers : Answers) (id server : List ℕ) (r : ℕ) (w : World)
    → Inv w
    → (is_other args.ssl || args.other_params) ≡ false
    → get_str args.client_id ≡ some id
    → get_str args.server ≡ some server
    → answers.create id server (port_or_default args.port (is_on args.ssl)) (is_on args.ssl)
      ≡ some r
    → has_ref r (refs w.connections) ≡ false
    → answers.new_object ≡ none
    → ((make_new args answers w).0 ≡ raised memory_error)
      × (live (close_all (make_new args answers w).1).log ≡ some (r ∷ []))
unfolding make_new with_names with_ref add_client close_all
make_new_leaks args answers id server r w v good i s c f e =
    let made : make_new args answers w
        ≡ (raised memory_error, record w { log = created r ∷ w.log }) =
      rw good (rw i (rw s (rw c (rw e refl)))) in
    rw made (refl, live-delete_all_kept r w.connections (created r ∷ w.log) f (created_live r w v))
