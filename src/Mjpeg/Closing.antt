-- ===== src/Mjpeg/Closing.antt =====
-- Calls that fail, and calls after `py_mjpeg_close`.
use upy_android.Prelude.{ℕ, ◌≡◌, refl, Option, arith, Bool-cases, inl, inr, ◌⊎◌}
use upy_android.Mjpeg.{
  Mjpeg, Coder, WriteArgs, finished, os_error, raised, write, write_picture, sync, close,
}

module _ {File Picture : Type 0} (coder : Coder File Picture) where
  -- After `py_mjpeg_close` the file is written no more: another close changes nothing, and a write or
  -- a sync raises OSError and changes nothing.
  close_is_final :
      (m : Mjpeg File) (args : WriteArgs) (picture : Option Picture) (ticks : ℕ)
      → let m' = (close coder m).1 in
        (close coder m' ≡ (finished, m'))
        × (sync coder m' ≡ (os_error, m'))
        × (write coder m' args picture ticks ≡ (os_error, m'))
  unfolding close sync write
  close_is_final m args picture ticks = elim (Bool-cases m.closed) [
    | inl shut ↦ rw shut (refl, refl, refl)
    | inr open_ ↦ rw open_ (refl, refl, refl)
  ]

  -- A write that does not finish leaves the clock's readings as they were, so a later frame is timed
  -- from the last one recorded; one that the checks refuse leaves the whole object.
  write_fails :
      (m : Mjpeg File) (args : WriteArgs) (picture : Option Picture) (ticks : ℕ)
      → let (ending, m') = write coder m args picture ticks in
        ((ending ≡ finished) ⊎ ((m'.us_total ≡ m.us_total) × (m'.us_old ≡ m.us_old)))
        × ((ending ≡ finished) ⊎ (ending ≡ raised) ⊎ (m' ≡ m))
  unfolding write write_picture
  write_fails m args picture ticks = ground arith
