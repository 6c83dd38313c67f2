-- ===== src/Framebuffer/Views.antt =====
-- What a client sees of the buffers: `framebuffer_writable`, `framebuffer_readable` and
-- `framebuffer_to_image`.
use upy_android.Prelude.{ℕ, ◌+◌, ◌≡◌, ap, ◌∙◌, true, not, some, List, [], ◌∷◌, ◌==◌, length, arith}
use upy_android.Prelude.Words.{null}
use upy_android.Queue
use upy_android.Queue.{Queue}
use upy_android.Queue.Moves.{is_empty-Holds, peek-Holds, pop-Holds_nil}
use upy_android.Framebuffer.{Platform, Framebuffer, writable, readable, to_image, acquire, data_of}
use upy_android.Framebuffer.Inv.{Owns}

-- The data of the oldest buffer, if there is one.
abbrev pub oldest : Platform → List ℕ → ℕ
oldest pf [] = null
oldest pf (x ∷ xs) = x + pf.sizeof_vbuffer

pixels_queue :
    (pf : Platform) (fb : Framebuffer) (q : Queue)
    → fb.used_queue ≡ some q
    → (to_image pf fb).pixels ≡ data_of pf (Queue.pop fb.used_queue true).0
unfolding to_image acquire
pixels_queue pf fb q e = ground (arith, e)

pixels_lem :
    (pf : Platform) (fb : Framebuffer) (frees useds : List ℕ)
    → Owns fb frees useds
    → (to_image pf fb).pixels ≡ oldest pf useds
pixels_lem pf fb frees [] o =
    pixels_queue pf fb o.used.queue o.used.there ∙ ap (data_of pf) (pop-Holds_nil true o.used).0
pixels_lem pf fb frees (x ∷ useds) o =
    let ne = o.used_buffers.0 in
    pixels_queue pf fb o.used.queue o.used.there
    ∙ ap (data_of pf) (peek-Holds x o.used).0
    ∙ ground (arith, ne)

-- With these free and used buffers, the frame buffer is writable when one is free, readable when one
-- is used, and its image has the pixels of the oldest used buffer, or none.
views :
    (pf : Platform) (fb : Framebuffer) (frees useds : List ℕ)
    → Owns fb frees useds
    → (writable fb ≡ not (length frees == 0))
      × (readable fb ≡ not (length useds == 0))
      × ((to_image pf fb).pixels ≡ oldest pf useds)
unfolding writable readable
views pf fb frees useds o =
    (ap not (is_empty-Holds o.free), ap not (is_empty-Holds o.used), pixels_lem pf fb frees useds o)
