-- ===== src/Output/Truncation.antt =====
-- How `mp_embed_output_get` marks output that was cut.
use upy_android.Prelude.{
  ℕ, zero, suc, ◌+◌, ◌-◌, ◌≤◌, ◌<◌, ◌≡◌, refl, sym, ap, ◌∙◌, ◌⊎◌, inl, inr, true, false, ◌++◌,
  arith, ◌==◌, if◌then◌else◌, length, replicate, Bool-cases, ℕ_discrete, dec_lt, ◌&&◌,
}
use mathlib.Core.Path.{ap₂}
use upy_android.Prelude.Words.{update, update_ne}
use upy_android.Prelude.Memory.{
  slice, blit, fill, slice-append, slice-ext, slice-blit, slice-fill, slice-update, blit_below,
  fill_below, blit_inside,
}
use upy_android.Output.{Output, buf_size, marker, is_continuation, back_up, cut, mark, get, text}

-- Where backing up from `p` stops: at the start, or at a byte that leads a character, with only
-- continuation bytes behind it.
record Stops (buf : ℕ → ℕ) (p b : ℕ) : Type 0 where
  below : b ≤ p
  lead : (b ≡ 0) ⊎ (is_continuation (buf b) ≡ false)
  behind : (j : ℕ) → b < j → j ≤ p → is_continuation (buf j) ≡ true

back_up-Stops : (buf : ℕ → ℕ) (p : ℕ) → Stops buf p (back_up buf p)
unfolding back_up
back_up-Stops buf zero = record {
  below = omega arith;
  lead = inl refl;
  behind = λ j h k. absurd (omega arith);
}
back_up-Stops buf (suc p) = elim (Bool-cases (is_continuation (buf (suc p)))) [
  | inl more ↦
      let ih = back_up-Stops buf p in
      rw (more, back_up)
        (record {
          below = omega (arith, ih.below);
          lead = ih.lead;
          behind = λ j h k. elim (ℕ_discrete j (suc p)) [
            | yes e ↦ rw e more
            | no n ↦ ih.behind j h (omega arith)
          ];
        })
  | inr lead ↦
      rw (lead, back_up)
        (record { below = omega arith; lead = inr lead; behind = λ j h k. absurd (omega arith) })
]

-- How many dots stand before the marker.
abbrev pub dots : Output → ℕ
dots o = o.len - length marker - cut o

-- The bytes after marking, in three stretches.
mark-text :
    (o : Output)
    → length marker + 1 ≤ o.len
    → slice (mark o) 0 o.len ≡ slice o.buf 0 (cut o) ++ (replicate (dots o) b'.' ++ marker)
unfolding mark
mark-text o h =
    ap (slice marked 0) whole
    ∙ slice-append marked 0 (cut o) (dots o + length marker)
    ∙ ap₂ ◌++◌ kept
        (slice-append marked (0 + cut o) (dots o) (length marker) ∙ ap₂ ◌++◌ dotted named)
  where
    below : cut o ≤ o.len - length marker - 1
    below = (back_up-Stops o.buf (o.len - length marker - 1)).below

    filled : ℕ → ℕ
    filled = fill o.buf (cut o) b'.' (o.len - cut o)

    marked : ℕ → ℕ
    marked = blit filled (o.len - length marker) marker

    whole : o.len ≡ cut o + (dots o + length marker)
    whole = omega (arith, below)

    kept : slice marked 0 (cut o) ≡ slice o.buf 0 (cut o)
    kept = slice-ext _ _ 0 (cut o) λ j p q.
        blit_below filled (o.len - length marker) marker j (omega (arith, below))
        ∙ fill_below o.buf (cut o) b'.' (o.len - cut o) j (omega arith)

    dotted : slice marked (0 + cut o) (dots o) ≡ replicate (dots o) b'.'
    dotted =
        let start : 0 + cut o ≡ cut o = omega arith in
        slice-ext _ filled (0 + cut o) (dots o)
          (λ j p q. blit_below filled (o.len - length marker) marker j (omega (arith, below)))
        ∙ ap (λ k. slice filled k (dots o)) start
        ∙ slice-fill o.buf (cut o) b'.' (o.len - cut o) (dots o) (omega arith)

    named : slice marked (0 + cut o + dots o) (length marker) ≡ marker
    named =
        let start : 0 + cut o + dots o ≡ o.len - length marker = omega (arith, below) in
        ap (λ k. slice marked k (length marker)) start
        ∙ slice-blit filled (o.len - length marker) marker

len-get : (o : Output) → (get o).len ≡ o.len
unfolding get
len-get o = ground arith

get-full : (o : Output) → o.len ≡ buf_size - 1 → get o ≡ record o { buf = update (mark o) o.len 0 }
unfolding get
get-full o full = ground arith

-- `mp_embed_output_get` hands out what the buffer holds. Only when it is full does it overwrite the
-- end, with dots and "[truncated]"; the length stays.
pub get-text :
    (o : Output)
    → text (get o) ≡ (
        if o.len == buf_size - 1
        then slice o.buf 0 (cut o) ++ (replicate (dots o) b'.' ++ marker)
        else text o)
unfolding get
get-text o = elim (Bool-cases (o.len == buf_size - 1)) [
  | inl full ↦
      rw full (slice-update (mark o) 0 o.len o.len 0 (omega arith) ∙ mark-text o (ground arith))
  | inr room ↦ rw room (slice-update o.buf 0 o.len o.len 0 (omega arith))
]

-- Handing out the buffer leaves the callback alone.
pub get-kept :
    (o : Output)
    → ((get o).delivered ≡ o.delivered) × ((get o).chunk_cb ≡ o.chunk_cb) × ((get o).len ≡ o.len)
unfolding get
get-kept o = ground arith

-- Of a full buffer in which no four continuation bytes come in a row, as in UTF-8, `mp_embed_output_get` hands out
-- a part from the start, then one to four dots, then "[truncated]", as many bytes as the buffer holds. The part
-- ends before a byte that leads a character, so no character is split.
pub get_splits_no_char :
    (o : Output)
    → o.len ≡ buf_size - 1
    → ((i : ℕ)
        → (is_continuation (o.buf i)
            && is_continuation (o.buf (i + 1))
            && is_continuation (o.buf (i + 2))
            && is_continuation (o.buf (i + 3)))
          ≡ false)
    → (n : ℕ) × ((d : ℕ) × (text (get o) ≡ slice o.buf 0 n ++ (replicate d b'.' ++ marker))
        × (is_continuation (o.buf n) ≡ false)
        × (1 ≤ d)
        × (d ≤ 4)
        × (n + d + length marker ≡ o.len))
get_splits_no_char o full utf8 =
    let stops = back_up-Stops o.buf (o.len - length marker - 1) in
    let below = stops.below in
    let few : dots o ≤ 4 = elim (dec_lt 4 (dots o)) [
      | yes many ↦ ground (
        arith,
        utf8 (cut o + 1),
        stops.behind (cut o + 1),
        stops.behind (cut o + 1 + 1),
        stops.behind (cut o + 1 + 2),
        stops.behind (cut o + 1 + 3),
      )
      | no few ↦ omega arith
    ] in
    let is_full : (o.len == buf_size - 1) ≡ true = ground (arith, full) in
    (
      cut o,
      (
        dots o,
        get-text o ∙ rw is_full refl,
        elim stops.lead [ inl start ↦ absurd (omega (arith, start, few, full)) | inr lead ↦ lead ],
        omega (arith, below, full),
        few,
        omega (arith, below, full),
      ),
    )

back_up_lead : (buf : ℕ → ℕ) (p : ℕ) → is_continuation (buf p) ≡ false → back_up buf p ≡ p
unfolding back_up
back_up_lead buf zero h = refl
back_up_lead buf (suc p) h = rw (h, back_up)

-- The byte before the marker is a dot.
mark-last_dot : (o : Output) → length marker + 1 ≤ o.len → mark o (o.len - length marker - 1) ≡ b'.'
unfolding mark fill
mark-last_dot o h =
    let below = (back_up-Stops o.buf (o.len - length marker - 1)).below in
    blit_below _ (o.len - length marker) marker (o.len - length marker - 1) (omega arith)
    ∙ ground arith

-- Marking what was marked changes nothing.
module _ (o : Output) (full : o.len ≡ buf_size - 1) where
  abbrev again : Output
  again = record o { buf = update (mark o) o.len 0 }

  again-mark : (j : ℕ) → j < o.len → again.buf j ≡ mark o j
  again-mark j h = update_ne (mark o) 0 (omega arith)

  cut-again : cut again ≡ o.len - length marker - 1
  unfolding is_continuation
  cut-again =
      let dot =
        again-mark (o.len - length marker - 1) (omega arith) ∙ mark-last_dot o (omega arith) in
      back_up_lead again.buf (o.len - length marker - 1) (rw dot)

  mark-again : (j : ℕ) → j < o.len → mark again j ≡ mark o j
  unfolding mark
  mark-again j h = elim (dec_lt j (o.len - length marker)) [
    | no late ↦ blit_inside _ _ (o.len - length marker) marker j (omega arith) (omega arith)
    | yes early ↦ elim (dec_lt j (o.len - length marker - 1)) [
      | yes before ↦
          blit_below _ (o.len - length marker) marker j early
          ∙ fill_below again.buf (cut again) b'.' (o.len - cut again) j (omega (arith, cut-again))
          ∙ again-mark j h
      | no at ↦
          let e : j ≡ o.len - length marker - 1 = omega arith in
          rw e (mark-last_dot again (omega arith) ∙ sym (mark-last_dot o (omega arith)))
    ]
  ]

  get-again : text (get again) ≡ text again
  get-again =
      ap text (get-full again full)
      ∙ slice-update (mark again) 0 o.len o.len 0 (omega arith)
      ∙ slice-ext _ _ 0 o.len
          (λ j p q. mark-again j (omega arith) ∙ sym (again-mark j (omega arith)))

-- Reading the output again gives the same text.
pub get-get : (o : Output) → text (get (get o)) ≡ text (get o)
get-get o = elim (ℕ_discrete o.len (buf_size - 1)) [
  | yes full ↦ rw (get-full o full) (get-again o full)
  | no room ↦ get-text (get o) ∙ ground (arith, len-get o)
]
