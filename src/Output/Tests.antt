-- ===== src/Output/Tests.antt =====
-- Runs of the output capture, full and not.
use mathlib.Core.List.{flatten}
use upy_android.Prelude.{
  ℕ, ◌+◌, ◌-◌, ◌≤◌, ◌≡◌, refl, true, false, List, [], ◌∷◌, ◌++◌, arith, ◌==◌, ◌&&◌, if◌then◌else◌,
  take, length, replicate,
}
use upy_android.Prelude.Memory.{slice, blit, fill}
use upy_android.Output.{
  Output, buf_size, marker, clear, text, print_all, is_continuation, get, back_up,
}
use upy_android.Output.Capture.{capture, chunks}
use upy_android.Output.Truncation.{get_splits_no_char}

abbrev stale : Output
stale = record { buf = λ i. 0; len = 3; chunk_cb = true; context = 7; delivered = [] }

abbrev writes : List (List ℕ)
writes = (104 ∷ 105 ∷ []) ∷ [] ∷ (10 ∷ []) ∷ []

-- "é" (0xC3 0xA9) stands across the place where the dots would begin.
abbrev full : Output
full = record {
  buf = λ i. if i == 131059 then 0xA9 else if i == 131058 then 0xC3 else b'a';
  len = buf_size - 1;
  chunk_cb = false;
  context = 0;
  delivered = [];
}

print_all-stale : text (print_all (clear stale) writes) ≡ 104 ∷ 105 ∷ 10 ∷ []
unfolding print_all clear blit
print_all-stale = refl

-- The marker is preceded by two dots, in place of the character.
get-full_bytes :
    ((get full).buf 131057 ≡ b'a')
    × ((get full).buf 131058 ≡ b'.')
    × ((get full).buf 131059 ≡ b'.')
    × ((get full).buf 131060 ≡ b'[')
unfolding get back_up is_continuation blit fill
get-full_bytes = (refl, refl, refl, refl)

capture_example :
    let o' = print_all (clear stale) writes in
    (text o' ≡ take (buf_size - 1) (flatten writes)) × (o'.delivered ≡ [] ++ chunks 7 writes)
capture_example = capture stale writes refl

full_utf8 :
    (i : ℕ)
    → (is_continuation (full.buf i)
        && is_continuation (full.buf (i + 1))
        && is_continuation (full.buf (i + 2))
        && is_continuation (full.buf (i + 3)))
      ≡ false
unfolding is_continuation
full_utf8 i = ground arith

get_splits_no_char_example :
    (n : ℕ) × ((d : ℕ) × (text (get full) ≡ slice full.buf 0 n ++ (replicate d b'.' ++ marker))
      × (is_continuation (full.buf n) ≡ false)
      × (1 ≤ d)
      × (d ≤ 4)
      × (n + d + length marker ≡ full.len))
get_splits_no_char_example = get_splits_no_char full refl full_utf8
