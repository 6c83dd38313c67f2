-- ===== src/Stdio/Writing.antt =====
-- Writes to sys.stdout and sys.stderr.
use upy_android.Prelude.{ℕ, ◌-◌, ◌≡◌, refl, sym, true, List, [], ◌∷◌, ◌++◌, take}
use mathlib.Core.Path.{subst}
use upy_android.Output.{Output, buf_size, clear, text, print_all, tx_strn_cooked}
use upy_android.Output.Capture.{capture, chunks}
use mathlib.Core.List.{flatten}
use upy_android.Stdio.{Fd, fd_in, fd_out, fd_err, stdio_write}

-- The writes of a script, in order.
pub write_all : List (Fd × List ℕ) → Output → Output
unfolding stdio_write
write_all [] o = o
write_all ((fd, str) ∷ writes) o = write_all writes (stdio_write fd str o).1

-- Those that a stream takes.
abbrev pub taken : List (Fd × List ℕ) → List (List ℕ)
taken [] = []
taken ((fd_in, str) ∷ writes) = taken writes
taken ((fd_out, str) ∷ writes) = str ∷ taken writes
taken ((fd_err, str) ∷ writes) = str ∷ taken writes

write_all-taken :
    (writes : List (Fd × List ℕ)) (o : Output) → write_all writes o ≡ print_all o (taken writes)
unfolding write_all print_all
write_all-taken [] o = refl
write_all-taken ((fd_in, str) ∷ writes) o = write_all-taken writes o
write_all-taken ((fd_out, str) ∷ writes) o = write_all-taken writes (tx_strn_cooked o str)
write_all-taken ((fd_err, str) ∷ writes) o = write_all-taken writes (tx_strn_cooked o str)

-- With a callback set, from a cleared buffer, sys.stdout and sys.stderr share the output: what a
-- script writes to either is kept in the order of the writes, up to the size of the buffer less
-- one, and every such write that is not empty goes to the callback. A write to sys.stdin leaves no
-- trace.
streams_share_output :
    (writes : List (Fd × List ℕ)) (o : Output)
    → o.chunk_cb ≡ true
    → let o' = write_all writes (clear o) in
      (text o' ≡ take (buf_size - 1) (flatten (taken writes)))
      × (o'.delivered ≡ o.delivered ++ chunks o.context (taken writes))
streams_share_output writes o set =
    subst
      (λ o'.
        (text o' ≡ take (buf_size - 1) (flatten (taken writes)))
        × (o'.delivered ≡ o.delivered ++ chunks o.context (taken writes)))
      (sym (write_all-taken writes (clear o))) (capture o (taken writes) set)
