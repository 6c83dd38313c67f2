-- ===== src/Mjpeg/Timing.antt =====
-- The mean time between frames.
use upy_android.Prelude.{
  ℕ, ◌+◌, ◌-◌, ◌/◌, ◌%◌, ◌^◌, ◌≤◌, ◌<◌, ◌≡◌, refl, ap, ◌∙◌, false, some, List, [], ◌∷◌, arith,
  length, ltb, if◌then◌else◌, ◌||◌,
}
use upy_android.Prelude.Ints.{ℤ, pos, negsuc, less}
use upy_android.Mjpeg.{Mjpeg, Coder, WriteArgs, finished, write, write_picture, us_avg, sub_uint32}

-- Arguments that pass the sanity checks.
abbrev pub Sane : WriteArgs → Type 0
Sane args =
    (less args.channel (negsuc 0) || less (pos 2) args.channel ≡ false)
    × (less args.alpha (pos 0) || less (pos 255) args.alpha ≡ false)
    × (less args.quality (pos 0) || less (pos 100) args.quality ≡ false)

module _ {File Picture : Type 0} (coder : Coder File Picture) where
  -- The coder counts each frame, and does not raise.
  abbrev pub Counts : Type 0
  Counts =
      (fp : File) (w h frames bytes : ℕ) (p : Picture) (quality channel alpha hint : ℤ)
      → let r = coder.mjpeg_write fp w h frames bytes p quality channel alpha hint in
        (r.frames ≡ (frames + 1) % 2 ^ 32) × (r.raises ≡ false)

  -- The recording of a picture at each of these times, in microseconds; the clock shows 32 bits.
  pub record_all : Mjpeg File → WriteArgs → Picture → List ℕ → Mjpeg File
  record_all m args p [] = m
  record_all m args p (u ∷ us) = record_all (write coder m args (some p) (u % 2 ^ 32)).1 args p us

  write-Sane :
      (m : Mjpeg File) (args : WriteArgs) (p : Picture) (ticks : ℕ)
      → m.closed ≡ false
      → Sane args
      → write coder m args (some p) ticks ≡ write_picture coder m args p ticks
  unfolding write
  write-Sane m args p ticks open_ sane = rw (open_, sane.0, sane.1, sane.2) refl

  write_picture-fields :
      (m : Mjpeg File) (args : WriteArgs) (p : Picture) (ticks : ℕ)
      → Counts
      → let r = write_picture coder m args p ticks in
        let n = (m.frames + 1) % 2 ^ 32 in
        (r.0 ≡ finished)
        × (r.1.frames ≡ n)
        × (r.1.us_old ≡ ticks)
        × (r.1.closed ≡ m.closed)
        × (r.1.us_total
            ≡ (if ltb 1 n then (m.us_total + sub_uint32 ticks m.us_old) % 2 ^ 64 else m.us_total))
  unfolding write_picture
  write_picture-fields m args p ticks counts =
      let c =
        counts m.fp m.width m.height m.frames m.bytes p args.quality args.channel args.alpha
          args.hint in
      rw (c.1, c.0) (refl, refl, refl, refl, refl)

-- Times in order, each less than 2^32 microseconds (71 minutes) after the one before.
abbrev pub Ascending : ℕ → List ℕ → Type 0
Ascending u [] = Unit {0}
Ascending u (v ∷ vs) = (u ≤ v) × (v - u < 2 ^ 32) × Ascending v vs

abbrev pub last_time : ℕ → List ℕ → ℕ
last_time u [] = u
last_time u (v ∷ vs) = last_time v vs

last_time-le : (u : ℕ) (us : List ℕ) → Ascending u us → u ≤ last_time u us
last_time-le u [] a = omega arith
last_time-le u (v ∷ vs) a = omega (arith, last_time-le v vs a.2, a.0)

-- The difference of two readings is the time between them.
elapsed :
    (now next : ℕ)
    → now ≤ next
    → next - now < 2 ^ 32
    → sub_uint32 (next % 2 ^ 32) (now % 2 ^ 32) ≡ next - now
elapsed now next a b = omega arith

-- A recording with `n + 1` frames, the first at `first` and the last at `now`.
record Since {File : Type 0} (m : Mjpeg File) (first now n : ℕ) : Type 0 where
  pub open_ : m.closed ≡ false
  pub frames : m.frames ≡ n + 1
  pub us_old : m.us_old ≡ now % 2 ^ 32
  pub us_total : m.us_total ≡ now - first

module _ {File Picture : Type 0} (coder : Coder File Picture) (counts : Counts coder) where
  write-Since :
      (m : Mjpeg File) (args : WriteArgs) (p : Picture) (first now next n : ℕ)
      → Sane args
      → Since m first now n
      → first ≤ now
      → now ≤ next
      → next - now < 2 ^ 32
      → next - first < 2 ^ 64
      → n + 2 < 2 ^ 32
      → Since (write coder m args (some p) (next % 2 ^ 32)).1 first next (n + 1)
  write-Since m args p first now next n sane s a b c d e =
      let w = write_picture-fields coder m args p (next % 2 ^ 32) counts in
      let f : (m.frames + 1) % 2 ^ 32 ≡ n + 2 = omega (arith, s.frames) in
      let since : sub_uint32 (next % 2 ^ 32) m.us_old ≡ next - now =
        ap (sub_uint32 (next % 2 ^ 32)) s.us_old ∙ elapsed now next b c in
      rw (write-Sane coder m args p (next % 2 ^ 32) s.open_ sane) (record {
        open_ = w.3 ∙ s.open_;
        frames = omega (arith, w.1, f);
        us_old = w.2;
        us_total = w.4 ∙ ground (arith, f, s.us_total, since);
      })

  mean :
      (m : Mjpeg File) (n total : ℕ)
      → m.frames ≡ n + 1
      → m.us_total ≡ total
      → us_avg coder m ≡ (if ltb 0 n then total / n % 2 ^ 32 else 0)
  mean m n total f t =
      let test : ltb 1 (n + 1) ≡ ltb 0 n = ground arith in
      let one_less : n + 1 - 1 ≡ n = omega arith in rw (f, t, test, one_less) refl

  first-Since :
      (m : Mjpeg File) (args : WriteArgs) (p : Picture) (first : ℕ)
      → Sane args
      → m.closed ≡ false
      → m.frames ≡ 0
      → m.us_total ≡ 0
      → Since (write coder m args (some p) (first % 2 ^ 32)).1 first first 0
  first-Since m args p first sane o z t =
      let w = write_picture-fields coder m args p (first % 2 ^ 32) counts in
      let f : (m.frames + 1) % 2 ^ 32 ≡ 1 = omega (arith, z) in
      rw (write-Sane coder m args p (first % 2 ^ 32) o sane) (record {
        open_ = w.3 ∙ o;
        frames = omega (arith, w.1, f);
        us_old = w.2;
        us_total = w.4 ∙ ground (arith, f, t);
      })

  record_all-Since :
      (us : List ℕ) (m : Mjpeg File) (args : WriteArgs) (p : Picture) (first now n : ℕ)
      → Sane args
      → Since m first now n
      → first ≤ now
      → Ascending now us
      → last_time now us - first < 2 ^ 64
      → n + length us + 1 < 2 ^ 32
      → Since (record_all coder m args p us) first (last_time now us) (n + length us)
  unfolding record_all
  record_all-Since [] m args p first now n sane s a asc d e = record {
    open_ = s.open_;
    frames = omega (arith, s.frames);
    us_old = s.us_old;
    us_total = s.us_total;
  }
  record_all-Since (v ∷ vs) m args p first now n sane s a asc d e =
      let next =
        write-Since m args p first now v n sane s a asc.0 asc.1
          (omega (arith, d, last_time-le v vs asc.2)) (omega (arith, e)) in
      let ih =
        record_all-Since vs (write coder m args (some p) (v % 2 ^ 32)).1 args p first v (n + 1) sane
          next (omega (arith, a, asc.0)) asc.2 d (omega (arith, e)) in
      record {
        open_ = ih.open_;
        frames = omega (arith, ih.frames);
        us_old = ih.us_old;
        us_total = ih.us_total;
      }

  -- A recording of a picture at each of these times keeps the time from its first frame to its
  -- last, though the clock of 32 bits wraps, and the mean that goes into the file is that time by
  -- the number of intervals, modulo 2^32. The coder counts each frame and does not raise, the
  -- recording is new and open, the arguments pass the checks, the times are in order and less than
  -- 2^32 microseconds apart, and the frames and the whole time fit 32 and 64 bits.
  pub timing :
      (m : Mjpeg File) (args : WriteArgs) (p : Picture) (first : ℕ) (us : List ℕ)
      → Sane args
      → m.closed ≡ false
      → m.frames ≡ 0
      → m.us_total ≡ 0
      → Ascending first us
      → last_time first us - first < 2 ^ 64
      → length us + 1 < 2 ^ 32
      → let m' = record_all coder m args p (first ∷ us) in
        (m'.frames ≡ length us + 1)
        × (m'.us_total ≡ last_time first us - first)
        × (us_avg coder m'
            ≡ (if ltb 0 (length us) then (last_time first us - first) / length us % 2 ^ 32 else 0))
  unfolding record_all
  timing m args p first us sane o z t asc d e =
      let s = first-Since m args p first sane o z t in
      let all =
        record_all-Since us (write coder m args (some p) (first % 2 ^ 32)).1 args p first first 0
          sane s (omega arith) asc d (omega (arith, e)) in
      let m' = record_all coder m args p (first ∷ us) in
      let count : m'.frames ≡ length us + 1 = omega (arith, all.frames) in
      (count, all.us_total, mean m' (length us) (last_time first us - first) count all.us_total)
