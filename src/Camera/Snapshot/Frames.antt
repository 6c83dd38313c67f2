-- ===== src/Camera/Snapshot/Frames.antt =====
-- What a snapshot gives: the newest frame, upright, or an exception in time; and it leaves no frame held.
use upy_android.Prelude.{
  ℕ, zero, suc, ◌+◌, ◌≤◌, ◌<◌, ◌≡◌, ◌≢◌, refl, Option, none, some, List, length, arith, Bool-cases,
  ℕ_discrete, Option-cases, inl, inr,
}
use upy_android.Prelude.Raise.{returned}
use upy_android.Camera.{Camera, World, PixFormat, grayscale, rgb565}
use upy_android.Camera.Inv.{Inv}
use upy_android.Camera.Opening.{bridge_slots, frame_size}
use upy_android.Camera.Rotate.Turning.{turned, out_w, out_h, IsTurn, table}
use upy_android.Camera.Rotate.Upright.{gray, rotate_gray_lem, rotate_rgba_lem}
use upy_android.Camera.Rotate.Upright
use upy_android.Camera.Snapshot.{
  Frame, Round, frame, Imlib, Image, Waited, got, gave_up, bridge_failed, Answers, wait_frame,
  take_frame, with_block, snapshot, copy_pixels, finish, block_size, budget,
}

-- A frame that the wait gives is one that the bridge gave.
wait_frame_got :
    (P : Frame → Type 0) (rounds : ℕ → Round) (seq deadline k n : ℕ) (f : Frame)
    → ((j : ℕ) (g : Frame) → (rounds j).acquire seq ≡ frame g → P g)
    → wait_frame rounds seq deadline k n ≡ some (got f)
    → P f
unfolding wait_frame
wait_frame_got P rounds seq deadline k zero f h e = ground (arith, e)
wait_frame_got P rounds seq deadline k (suc n) f h e =
    ground (arith, e, h k f, wait_frame_got P rounds seq deadline (k + 1) n f h)

-- The wait ends by the round that ends at the deadline or later.
pub wait_frame_ends :
    (rounds : ℕ → Round) (seq deadline k n j : ℕ)
    → k ≤ j
    → j < k + n
    → deadline ≤ (rounds j).now
    → wait_frame rounds seq deadline k n ≢ none
unfolding wait_frame
wait_frame_ends rounds seq deadline k zero j p q h = absurd (omega arith)
wait_frame_ends rounds seq deadline k (suc n) j p q h = elim (ℕ_discrete k j) [
  | yes e ↦ let here : deadline ≤ (rounds k).now = rw e h in ground arith
  | no e ↦
      let rest = wait_frame_ends rounds seq deadline (k + 1) n j (omega arith) (omega arith) h in
      ground (arith, rest)
]

module _ (imlib : Imlib) where
  -- The pixel of a frame's bytes in the format.
  abbrev pub pixel : PixFormat → List ℕ → ℕ → ℕ → ℕ → ℕ
  pixel grayscale src W x y = gray src W x y
  pixel rgb565 src W x y = Upright.rgb565 imlib.pack src W x y

  -- The frame's bytes as the upright picture that the camera was opened for.
  abbrev pub upright : Camera → List ℕ → List ℕ
  upright c src =
      table (turned c.rotation c.src_w c.src_h (pixel c.pixfmt src c.src_w))
        (out_w c.rotation c.src_w c.src_h) 0 (out_h c.rotation c.src_w c.src_h)

  copy_upright :
      (c : Camera) (src : List ℕ)
      → IsTurn c.rotation
      → frame_size c.pixfmt c.src_w c.src_h ≤ length src
      → copy_pixels imlib c src ≡ some (upright c src)
  copy_upright c src t h = go c.pixfmt refl h
    where
      go :
          (fmt : PixFormat)
          → c.pixfmt ≡ fmt
          → frame_size fmt c.src_w c.src_h ≤ length src
          → copy_pixels imlib c src ≡ some (upright c src)
      go grayscale e h = rw e (rotate_gray_lem src c.src_w c.src_h c.rotation t (omega arith))
      go rgb565 e h =
          rw e (rotate_rgba_lem imlib.pack src c.src_w c.src_h c.rotation t (omega arith))

  -- A frame of the size and the rotation that the camera was opened for, in one of the three buffers, gives
  -- an image whose pixels are that frame's, upright.
  taken_upright :
      (self raw : ℕ) (memory : ℕ → List ℕ) (f : Frame) (w : World) (img : Image) (w' : World)
      → IsTurn (w.cameras self).rotation
      → frame_size (w.cameras self).pixfmt (w.cameras self).src_w (w.cameras self).src_h
        ≤ length (memory ((w.cameras self).slots f.slot))
      → take_frame imlib self memory raw (got f) w ≡ (returned img, w')
      → (img.pixels ≡ some (upright (w.cameras self) (memory ((w.cameras self).slots f.slot))))
        × ((w'.cameras self).last_seq ≡ f.seq)
  unfolding take_frame
  taken_upright self raw memory f w img w' t h e =
      let p = copy_upright (w.cameras self) (memory ((w.cameras self).slots f.slot)) t h in
      ground (arith, e, p)

  -- What the wait must promise of a frame of the camera `c`.
  pub record IsGood (c : Camera) (f : Frame) : Type 0 where
    pub slot : f.slot < bridge_slots
    pub newer : c.last_seq < f.seq

  -- A frame that the bridge gives in a round, in one of its buffers and newer than the last.
  abbrev pub Given : (ℕ → Round) → Camera → Frame → Type 0
  Given rounds c f =
      ((j : ℕ) × ((rounds j).acquire c.last_seq ≡ frame f))
      × ((f.slot < bridge_slots) × (c.last_seq < f.seq))

  finish-upright :
      (self raw : ℕ) (memory : ℕ → List ℕ) (rounds : ℕ → Round) (o : Option Waited) (w : World)
      (img : Image) (w' : World)
      → IsTurn (w.cameras self).rotation
      → ((s : ℕ)
          → s < bridge_slots
          → frame_size (w.cameras self).pixfmt (w.cameras self).src_w (w.cameras self).src_h
            ≤ length (memory ((w.cameras self).slots s)))
      → ((f : Frame) → o ≡ some (got f) → Given rounds (w.cameras self) f)
      → finish imlib self memory raw w o ≡ some (returned img, w')
      → (f : Frame) × ((img.pixels
            ≡ some (upright (w.cameras self) (memory ((w.cameras self).slots f.slot))))
          × (((w'.cameras self).last_seq ≡ f.seq) × Given rounds (w.cameras self) f))
  unfolding take_frame
  finish-upright self raw memory rounds none w img w' t m g e = absurd (ground (arith, e))
  finish-upright self raw memory rounds (some bridge_failed) w img w' t m g e =
      absurd (ground (arith, e))
  finish-upright self raw memory rounds (some (gave_up x)) w img w' t m g e =
      absurd (ground (arith, e))
  finish-upright self raw memory rounds (some (got f)) w img w' t m g e =
      let good = g f refl in
      let (p, q) =
        taken_upright self raw memory f w img w' t (m f.slot (good.1).0) (ground (arith, e)) in
      (f, (p, (q, good)))

  -- Where the buffers have their capacity, the turn is one that CameraX delivers, and CameraX only gives
  -- frames in the three buffers that are newer than the last: an image that a snapshot returns from a
  -- state in order holds the pixels of a frame that CameraX gave in this wait, upright and read inside the
  -- buffer that it names, and the frame's number is the camera's last one from then on.
  pub snapshot-upright :
      (capacity : ℕ → ℕ) (self fuel : ℕ) (answers : Answers) (w : World) (img : Image) (w' : World)
      → Inv capacity w
      → IsTurn (w.cameras self).rotation
      → ((a : ℕ) → capacity a ≤ length (answers.memory a))
      → ((j : ℕ) (f : Frame)
          → (answers.rounds j).acquire (w.cameras self).last_seq ≡ frame f
          → IsGood (w.cameras self) f)
      → snapshot imlib self answers fuel w ≡ some (returned img, w')
      → (f : Frame) × ((img.pixels
            ≡ some (upright (w.cameras self) (answers.memory ((w.cameras self).slots f.slot))))
          × (((w'.cameras self).last_seq ≡ f.seq) × Given answers.rounds (w.cameras self) f))
  unfolding snapshot with_block
  snapshot-upright capacity self fuel answers w img w' v t m g e =
      elim (Bool-cases (w.cameras self).is_open) [
        | inr c ↦ absurd (ground (arith, e))
        | inl o ↦
            let size = answers.malloc (
              block_size (
                imlib.image_size (w.cameras self).pixfmt (w.cameras self).out_w
                  (w.cameras self).out_h)) in
            elim (Option-cases size) [
              | inl n ↦ absurd (ground (arith, e))
              | inr (raw, n) ↦
                  finish-upright self raw answers.memory answers.rounds
                    (wait_frame answers.rounds (w.cameras self).last_seq
                      (answers.start + budget imlib (w.cameras self)) 0 fuel)
                    w img w' t
                    (λ s p.
                      let a = v.ample self s o p in
                      let b = m ((w.cameras self).slots s) in omega arith)
                    (λ f q.
                      wait_frame_got (Given answers.rounds (w.cameras self)) answers.rounds _ _ 0
                        fuel f (λ j h a. let good = g j h a in ((j, a), (good.slot, good.newer))) q)
                    (ground (arith, e))
            ]
      ]
