-- ===== src/Stdio/Reading.antt =====
-- Reads of sys.stdin.
use upy_android.Prelude.{
  ℕ, zero, suc, ◌≤◌, ◌≡◌, refl, sym, ap, ◌∙◌, List, [], ◌∷◌, map, arith, length, take, drop,
}
use mathlib.Core.Path.{subst}
use mathlib.Core.List.{map-id}
use upy_android.Stdin.{Stdin, Wake, Outcome, returns, rx_chr}
use upy_android.Stdin.Fifo.{IsValid, contents}
use upy_android.Stdin.Line.{rx_chr_ready}
use upy_android.Stdio.{fd_in, ok, stdio_read, stdio_buffer_read, read_loop, newline}

read_loop-step :
    (f : ℕ → ℕ) (n c : ℕ) (cs : List ℕ) (s : Stdin) (ws : List Wake)
    → (rx_chr s ws).0 ≡ returns c
    → (read_loop f n (rx_chr s ws).1 (rx_chr s ws).2).0 ≡ returns cs
    → let rest = read_loop f n (rx_chr s ws).1 (rx_chr s ws).2 in
      read_loop f (suc n) s ws ≡ (returns (f c ∷ cs), rest.1, rest.2)
unfolding read_loop
read_loop-step f n c cs s ws e h = ground arith

read_loop_list :
    (f : ℕ → ℕ) (n : ℕ) (xs : List ℕ) (s : Stdin) (ws : List Wake)
    → IsValid s
    → contents s ≡ xs
    → n ≤ length xs
    → let r = read_loop f n s ws in
      (r.0 ≡ returns (map f (take n xs))) × (contents r.1 ≡ drop n xs) × (r.2 ≡ ws) × IsValid r.1
unfolding read_loop
read_loop_list f zero xs s ws v e h = (refl, e, refl, v)
read_loop_list f (suc n) [] s ws v e h = absurd (omega (arith, h))
read_loop_list f (suc n) (c ∷ xs) s ws v e h =
    let r = rx_chr_ready s ws c xs v e in
    let ih = read_loop_list f n xs (rx_chr s ws).1 (rx_chr s ws).2 r.3 r.1 (omega (arith, h)) in
    let step = read_loop-step f n c (map f (take n xs)) s ws r.0 ih.0 in
    (
      ap (λ (t : Outcome (List ℕ) × Stdin × List Wake). t.0) step,
      ap (λ (t : Outcome (List ℕ) × Stdin × List Wake). contents t.1) step ∙ ih.1,
      ap (λ (t : Outcome (List ℕ) × Stdin × List Wake). t.2) step ∙ ih.2 ∙ r.2,
      subst (λ (t : Outcome (List ℕ) × Stdin × List Wake). IsValid t.1) (sym step) ih.3,
    )

-- A read of as many bytes as wait in the FIFO, or fewer, returns the oldest of them in order, with no
-- wait, and leaves the others. `stdio_read` makes a newline of each carriage return,
-- `stdio_buffer_read` leaves the bytes as they are.
pub stdio_reads_ready :
    (n : ℕ) (s : Stdin) (ws : List Wake)
    → IsValid s
    → n ≤ length (contents s)
    → let (reply, s0, ws0) = stdio_read fd_in n s ws in
      let (bytes, s1, ws1) = stdio_buffer_read n s ws in
      (reply ≡ ok (returns (map newline (take n (contents s)))))
      × (bytes ≡ returns (take n (contents s)))
      × (contents s0 ≡ drop n (contents s))
      × (contents s1 ≡ drop n (contents s))
      × (ws0 ≡ ws)
      × (ws1 ≡ ws)
unfolding stdio_read stdio_buffer_read
stdio_reads_ready n s ws v h =
    let r = read_loop_list newline n (contents s) s ws v refl h in
    let b = read_loop_list (λ c. c) n (contents s) s ws v refl h in
    (ap ok r.0, b.0 ∙ ap returns (map-id (take n (contents s))), r.1, b.1, r.2, b.2)
