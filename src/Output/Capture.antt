-- ===== src/Output/Capture.antt =====
-- What the buffer and the callback get of a script's output.
use mathlib.Core.List.{flatten}
use upy_android.Prelude.{
  ◌&&◌, ℕ, ◌+◌, ◌-◌, ◌≤◌, ◌≡◌, refl, sym, ap, ◌∙◌, true, List, [], ◌∷◌, ◌++◌, arith, ltb,
  if◌then◌else◌, length, take, length-take, append-nil, append_assoc, Bool-cases, inl, inr,
}
use upy_android.Prelude.Memory.{
  slice, blit, length-slice, slice-blit_append, take-append, take_all, take-take_append,
}
use upy_android.Output.{
  Output, buf_size, clear, accumulate, tx_strn_cooked, text, print_all, copy_len,
}

-- The last byte of the buffer is kept for the NUL.
pub record IsValid (o : Output) : Type 0 where
  pub fits : o.len ≤ buf_size - 1

-- Copying `k` bytes, as many as fit below `cap`, behind `len` bytes.
copy-take :
    (f : ℕ → ℕ) (cap len k : ℕ) (str : List ℕ)
    → len ≤ cap
    → k ≡ (if ltb (cap - len) (length str) then cap - len else length str)
    → slice (blit f len (take k str)) 0 (len + k) ≡ take cap (slice f 0 len ++ str)
copy-take f cap len k str fits e =
    let n : length (take k str) ≡ k = ground (arith, length-take k str) in
    let z : 0 + len ≡ len = omega arith in
    let same : take k str ≡ take (cap - len) str =
      ground (arith, take_all k str, take_all (cap - len) str) in
    ap (λ m. slice (blit f len (take k str)) 0 (len + m)) (sym n)
    ∙ ap (λ m. slice (blit f m (take k str)) 0 (len + length (take k str))) (sym z)
    ∙ slice-blit_append f 0 len (take k str)
    ∙ ap (λ xs. slice f 0 len ++ xs) same
    ∙ ap (λ m. slice f 0 len ++ take (cap - m) str) (sym (length-slice f 0 len))
    ∙ sym (take-append cap (slice f 0 len) str (omega (arith, length-slice f 0 len)))

accumulate-text :
    (cap : ℕ) (o : Output) (str : List ℕ)
    → cap ≡ buf_size - 1
    → IsValid o
    → text (accumulate o str) ≡ take cap (text o ++ str)
unfolding accumulate blit
accumulate-text cap o str c v =
    let copied =
      copy-take o.buf cap o.len (copy_len o (length str)) str (omega arith) (ground arith) in
    elim (Bool-cases (ltb 0 (copy_len o (length str)))) [
      | inl some_fit ↦ rw some_fit copied
      | inr none_fit ↦ rw none_fit (
          let full : 0 ≡ copy_len o (length str) = ground arith in
          let z : o.len ≡ o.len + 0 = omega arith in
          ap (slice o.buf 0) z
          ∙ ap (λ k. slice (blit o.buf o.len (take k str)) 0 (o.len + k)) full
          ∙ copied)
    ]

pub tx_strn_cooked-IsValid :
    (o : Output) (str : List ℕ) → IsValid o → IsValid (tx_strn_cooked o str)
unfolding tx_strn_cooked
tx_strn_cooked-IsValid o str v = ground arith

tx_strn_cooked-text :
    (cap : ℕ) (o : Output) (str : List ℕ)
    → cap ≡ buf_size - 1
    → IsValid o
    → text (tx_strn_cooked o str) ≡ take cap (text o ++ str)
unfolding tx_strn_cooked
tx_strn_cooked-text cap o str c v =
    elim (Bool-cases ((accumulate o str).chunk_cb && ltb 0 (length str))) [
      | inl told ↦ rw told (accumulate-text cap o str c v)
      | inr silent ↦ rw silent (accumulate-text cap o str c v)
    ]

print_all-text :
    (cap : ℕ) (o : Output) (strs : List (List ℕ))
    → cap ≡ buf_size - 1
    → IsValid o
    → text (print_all o strs) ≡ take cap (text o ++ flatten strs)
unfolding print_all flatten
print_all-text cap o [] c v =
    sym (take_all cap (text o) (omega (arith, length-slice o.buf 0 o.len)))
    ∙ ap (take cap) (sym (append-nil (text o)))
print_all-text cap o (s ∷ ss) c v =
    print_all-text cap (tx_strn_cooked o s) ss c (tx_strn_cooked-IsValid o s v)
    ∙ ap (λ xs. take cap (xs ++ flatten ss)) (tx_strn_cooked-text cap o s c v)
    ∙ take-take_append cap (text o ++ s) (flatten ss)
    ∙ ap (take cap) (append_assoc (text o) s (flatten ss))

-- The chunks that a callback gets: every write that is not empty, whole.
abbrev pub chunks : ℕ → List (List ℕ) → List (ℕ × List ℕ)
chunks context [] = []
chunks context (s ∷ ss) =
    if ltb 0 (length s) then (context, s) ∷ chunks context ss else chunks context ss

-- One write with a callback set.
tx_strn_cooked-told :
    (o : Output) (s : List ℕ)
    → o.chunk_cb ≡ true
    → ((tx_strn_cooked o s).chunk_cb ≡ true)
      × ((tx_strn_cooked o s).context ≡ o.context)
      × ((tx_strn_cooked o s).delivered
          ≡ (if ltb 0 (length s) then o.delivered ++ (o.context, s) ∷ [] else o.delivered))
unfolding tx_strn_cooked accumulate
tx_strn_cooked-told o s c = ground arith

print_all-delivered :
    (o : Output) (strs : List (List ℕ))
    → o.chunk_cb ≡ true
    → (print_all o strs).delivered ≡ o.delivered ++ chunks o.context strs
unfolding print_all
print_all-delivered o [] c = sym (append-nil _)
print_all-delivered o (s ∷ ss) c =
    let told = tx_strn_cooked-told o s c in
    ground (
      arith,
      told,
      print_all-delivered (tx_strn_cooked o s) ss told.0,
      append_assoc o.delivered ((o.context, s) ∷ []) (chunks o.context ss),
    )

-- With a callback set, from a cleared buffer: a script's output is kept up to the size of the
-- buffer less one, and all of it goes to the callback, every write that is not empty, whole and in
-- order.
pub capture :
    (o : Output) (strs : List (List ℕ))
    → o.chunk_cb ≡ true
    → let o' = print_all (clear o) strs in
      (text o' ≡ take (buf_size - 1) (flatten strs))
      × (o'.delivered ≡ o.delivered ++ chunks o.context strs)
unfolding clear
capture o strs c = (
  print_all-text (buf_size - 1) (record o { len = 0 }) strs refl (omega arith),
  print_all-delivered (record o { len = 0 }) strs c,
)
