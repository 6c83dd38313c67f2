-- ===== src/Litert/Order.antt =====
-- The order in which a reset and a script close environments and models.
use upy_android.Prelude.{
  ℕ, ◌≡◌, refl, sym, ap, ◌∙◌, Bool, true, false, some, List, [], ◌∷◌, ◌++◌, append_assoc,
}
use upy_android.Prelude.Raise.{os_error, eio, Outcome, returned}
use upy_android.Prelude.Run.{Ends, ends, bind, check}
use upy_android.Litert.{
  Node, Kind, buffer, model, environment, Event, closed, World, ref_at, registry_remove,
  environment_close, close_environment_at, close_list, close_all,
}
use upy_android.Litert.Inv.{Inv, listed_ref}
use upy_android.Litert.Objects.{global_ref-Found}
use mathlib.Core.Path.{ap₂}

-- The events of closing nodes in this order, the latest first.
abbrev pub closings : Kind → List Node → List Event
closings k [] = []
closings k (n ∷ ns) = closings k ns ++ (closed k n.global_ref ∷ [])

close_list-append :
    (k : Kind) (ns : List Node) (log : List Event) → close_list k ns log ≡ closings k ns ++ log
unfolding close_list
close_list-append k [] log = refl
close_list-append k (n ∷ ns) log =
    close_list-append k ns (closed k n.global_ref ∷ log)
    ∙ sym (append_assoc (closings k ns) (closed k n.global_ref ∷ []) log)

-- The log after all that is in the lists has been closed.
abbrev pub closed_all : World → List Event
closed_all w =
    closings environment w.environments
    ++ (closings model w.models ++ (closings buffer w.buffers ++ w.log))

pub close_all_log : (w : World) → (close_all w).log ≡ closed_all w
unfolding close_all
close_all_log w =
    close_list-append environment w.environments _
    ∙ ap (λ l. closings environment w.environments ++ l)
        (close_list-append model w.models _
          ∙ ap (λ l. closings model w.models ++ l) (close_list-append buffer w.buffers w.log))

-- What a close of the environment with this reference leaves: the models, and in the log that it has been closed.
abbrev pub OnlyEnvironment : ℕ → World → Outcome (Unit {0}) → World → Type 0
OnlyEnvironment ref w r w' =
    (w'.models ≡ w.models)
    × ((w'.model_objs ≡ w.model_objs) × (w'.log ≡ closed environment ref ∷ w.log))

check_Only :
    (ref : ℕ) (w w' : World) (ok : Bool)
    → OnlyEnvironment ref w (returned tt) w'
    → Ends (OnlyEnvironment ref w) (check ok (os_error eio) w')
check_Only ref w w' true h = ends h
check_Only ref w w' false h = ends h

close_environment_at-Only :
    (self : ℕ) (ok : Bool) (a r : ℕ) (w : World)
    → ref_at a w.environments ≡ some r
    → Ends (OnlyEnvironment r w) (close_environment_at self ok (some a) w)
unfolding registry_remove
close_environment_at-Only self ok a r w live =
    bind (global_ref-Found environment a r w live)
      (λ ref u (same, p). check_Only r w _ ok (
        ap (λ (v : World). v.models) p,
        (
          ap (λ (v : World). v.model_objs) p,
          ap₂ (λ k (v : World). closed environment k ∷ v.log) same p,
        ),
      ))
      (λ e u p. absurd p)

-- `litert_close_all` closes the buffers, then the models and then the environments, each once, and forgets
-- them. But `close()` of an Environment that is open closes the handle of its node at once and leaves the models
-- as they are, also those that were compiled in it. The objects are in order.
pub close_order :
    (w : World) (self a : ℕ) (ok : Bool)
    → Inv w
    → w.environment_objs self ≡ some a
    → ((close_all w).log
        ≡ closings environment w.environments
          ++ (closings model w.models ++ (closings buffer w.buffers ++ w.log)))
      × (((close_all w).environments ≡ [])
          × (((close_all w).models ≡ []) × ((close_all w).buffers ≡ [])))
      × ((ref : ℕ) × ((ref_at a w.environments ≡ some ref)
            × Ends (OnlyEnvironment ref w) (environment_close self ok w)))
unfolding close_all environment_close
close_order w self a ok v e =
    let (r, live) = listed_ref a w.environments (v.environments.listed self a e) in
    (
      close_all_log w,
      (refl, (refl, refl)),
      (r, (live, rw e (close_environment_at-Only self ok a r w live))),
    )
