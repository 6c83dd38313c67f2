-- ===== src/Camera/Opening/Keeping.antt =====
-- Opening a camera keeps the state of the module in order, on every path.
use upy_android.Prelude.{
  ℕ, zero, suc, ◌+◌, ◌≤◌, ◌<◌, ◌≡◌, refl, ◌⊎◌, true, Option, none, some, ◌∷◌, ◌==◌, arith, inl, inr,
  Option-cases, either,
}
use upy_android.Prelude.Words.{update}
use upy_android.Prelude.Raise.{Outcome, Exn, returned, raised, value_error, os_error, eacces}
use upy_android.Camera.{Camera, World, opened, close_impl, close_all, PixFormat}
use upy_android.Camera.Opening.{
  Args, Answers, Info, frame_size, bridge_slots, fill_slots, set_up, keep_slots, opened_with,
  open_new, with_format, make_new, new_camera, bad_size, bad_rate, no_permission, no_camera,
  no_frame_rate,
}
use upy_android.Camera.Inv.{Inv, close_open-Inv, change-Core, Core, close_all-Inv, none-Inv, after}

-- A call that returns leaves its camera open, and one that raises leaves none.
abbrev pub Settled : Outcome ℕ × World → Type 0
Settled (returned i, w) = w.open_camera ≡ some i
Settled (raised e, w) = w.open_camera ≡ none

module _ (capacity : ℕ → ℕ) where
  -- The loop over the buffers keeps only buffers that a frame fits into.
  fill_slots_ample :
      (buffer : ℕ → Option ℕ) (need : ℕ) (slots filled : ℕ → ℕ) (i n : ℕ)
      → ((s : ℕ) → s < i → need ≤ capacity (slots s))
      → fill_slots capacity buffer need slots i n ≡ some filled
      → (s : ℕ) → s < i + n
      → need ≤ capacity (filled s)
  unfolding fill_slots
  fill_slots_ample buffer need slots filled i zero h e s p = ground (arith, h s)
  fill_slots_ample buffer need slots filled i (suc n) h e s p = elim (Option-cases (buffer i)) [
    | inl o ↦ ground (arith, e)
    | inr (a, o) ↦
        fill_slots_ample buffer need (update slots i a) filled (i + 1) n (ground arith)
          (ground arith) s (omega arith)
  ]

  record Kept (r : Outcome ℕ × World) : Type 0 where
    pub inv : Inv capacity r.1
    pub settled : Settled r

  -- The state is in order after a call from the state `w`: its outcome is settled, or a bad argument has
  -- raised ValueError and changed nothing.
  pub record IsMade (w : World) (r : Outcome ℕ × World) : Type 0 where
    pub inv : Inv capacity r.1
    pub outcome : (r ≡ (raised value_error, w)) ⊎ Settled r

  closed_Kept :
      (self : ℕ) {e : Exn} (w : World)
      → Core w
      → w.open_camera ≡ some self
      → Kept (raised e, close_impl self w)
  closed_Kept self w v o =
      let (i, n) = close_open-Inv self w v (v.pointed self o) in record { inv = i; settled = n }

  open_Core :
      (self : ℕ) (w : World)
      → Core w
      → w.open_camera ≡ none
      → Core (record {
        cameras = update w.cameras self (record (w.cameras self) { is_open = true });
        open_camera = some self;
        log = opened ∷ w.log;
      })
  unfolding after
  open_Core self w v n = ground (arith, v.one)

  keep_slots-Kept :
      (self : ℕ) (c : Camera) (w : World) (o : Option (ℕ → ℕ))
      → Core w
      → w.open_camera ≡ some self
      → c.is_open ≡ true
      → ((filled : ℕ → ℕ)
          → o ≡ some filled
          → (s : ℕ) → s < bridge_slots
          → frame_size c.pixfmt c.src_w c.src_h ≤ capacity (filled s))
      → Kept (keep_slots capacity self c w o)
  unfolding keep_slots
  keep_slots-Kept self c w none v o e h = closed_Kept self w v o
  keep_slots-Kept self c w (some filled) v o e h = record {
    inv = record {
      core = change-Core self (record c { slots = filled }) w v o e;
      ample = λ i s p q. ground (arith, v.one i, h filled refl s q);
    };
    settled = o;
  }

  -- A camera that is open, with its sizes and buffers: every frame fits.
  set_up-Kept :
      (self : ℕ) (fmt : PixFormat) (info : Option Info) (buffer : ℕ → Option ℕ) (w : World)
      → Core w
      → w.open_camera ≡ some self
      → (w.cameras self).pixfmt ≡ fmt
      → Kept (set_up capacity self fmt info buffer w)
  unfolding set_up
  set_up-Kept self fmt none buffer w v o f = closed_Kept self w v o
  set_up-Kept self fmt (some info) buffer w v o f =
      keep_slots-Kept self _ _ _ (change-Core self _ w v o (v.pointed self o)) o (v.pointed self o)
        (λ filled e s p. rw f (
          fill_slots_ample buffer (frame_size fmt info.src_w info.src_h) _ filled 0 bridge_slots
            (λ k q. absurd (omega arith)) e s (omega arith)))

  opened_with-Kept :
      (self : ℕ) (fmt : PixFormat) (answers : Answers) (o : Option ℕ) (w : World)
      → Inv capacity w
      → w.open_camera ≡ none
      → (w.cameras self).pixfmt ≡ fmt
      → Kept (opened_with capacity self fmt answers o w)
  unfolding opened_with
  opened_with-Kept self fmt answers none w v n f = record { inv = v; settled = n }
  opened_with-Kept self fmt answers (some status) w v n f =
      either Kept (status == no_permission) (raised (os_error eacces), w) _
        (record { inv = v; settled = n })
        (either Kept (status == no_camera) (raised value_error, w) _
          (record { inv = v; settled = n })
          (either Kept (status == no_frame_rate) (raised value_error, w) _
            (record { inv = v; settled = n })
            (set_up-Kept self fmt answers.open_info answers.buffer _ (open_Core self w v.core n)
              refl (ground arith))))

  -- The allocation of an object, closed.
  new_Inv :
      (self : ℕ) (fmt : PixFormat) (w : World)
      → Inv capacity w
      → w.open_camera ≡ none
      → Inv capacity (record w { cameras = update w.cameras self (new_camera capacity fmt) })
  new_Inv self fmt w v n = none-Inv _ (ground (arith, v.core.one)) n

  open_new-Kept :
      (args : Args) (fmt : PixFormat) (answers : Answers) (o : Option ℕ) (w : World)
      → Inv capacity w
      → w.open_camera ≡ none
      → Kept (open_new capacity args fmt answers o w)
  unfolding open_new
  open_new-Kept args fmt answers none w v n = record { inv = v; settled = n }
  open_new-Kept args fmt answers (some self) w v n =
      opened_with-Kept self fmt answers _ _ (new_Inv self fmt w v n) n (ground arith)

  with_format-IsMade :
      (args : Args) (o : Option PixFormat) (answers : Answers) (w : World)
      → Inv capacity w
      → IsMade w (with_format capacity args o answers w)
  unfolding with_format
  with_format-IsMade args none answers w v = record { inv = v; outcome = inl refl }
  with_format-IsMade args (some fmt) answers w v =
      let (v', n) = close_all-Inv w v in
      let k = open_new-Kept args fmt answers answers.new_object (close_all w) v' n in
      record { inv = k.inv; outcome = inr k.settled }

  -- From a state in order, opening a camera leaves the state in order on every path: when it returns an
  -- object, that is the one open camera, and when it raises, no camera is open, or a bad argument has
  -- raised ValueError and changed nothing.
  pub make_new-Inv :
      (args : Args) (answers : Answers) (w : World)
      → Inv capacity w
      → IsMade w (make_new capacity args answers w)
  unfolding make_new
  make_new-Inv args answers w v =
      let bad : IsMade w (raised value_error, w) = record { inv = v; outcome = inl refl } in
      either (IsMade w) (bad_size args.size) _ _ bad (
        either (IsMade w) (bad_rate args.frame_rate) _ _ bad
          (with_format-IsMade args args.format answers w v))
