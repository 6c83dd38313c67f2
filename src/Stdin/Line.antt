-- ===== src/Stdin/Line.antt =====
-- `mp_android_readline`, on input that holds a whole line.
use upy_android.Prelude.{
  ℕ, zero, suc, ◌<◌, ◌≡◌, ◌≢◌, ap, ◌∙◌, false, some, List, [], ◌∷◌, ◌++◌, arith, ◌==◌,
  if◌then◌else◌, length, append-nil, append_assoc,
}
use upy_android.Stdin.{Stdin, Wake, Outcome, returns, rx_chr, readline}
use upy_android.Stdin.Fifo.{IsValid, contents}
use upy_android.Stdin.Blocking.{rx_chr_refines, rx_list, seen}

abbrev pub NoNewline : List ℕ → Type 0
NoNewline [] = Unit {0}
NoNewline (x ∷ xs) = (x ≢ b'\n') × NoNewline xs

-- A line without its carriage returns.
unfoldable pub strip : List ℕ → List ℕ
strip [] = []
strip (x ∷ xs) = let rest = strip xs in if x == b'\r' then rest else x ∷ rest

-- The byte that is there is read, with no wait.
pub rx_chr_ready :
    (s : Stdin) (ws : List Wake) (c : ℕ) (xs : List ℕ)
    → IsValid s
    → contents s ≡ c ∷ xs
    → ((rx_chr s ws).0 ≡ returns c)
      × (contents (rx_chr s ws).1 ≡ xs)
      × ((rx_chr s ws).2 ≡ ws)
      × IsValid (rx_chr s ws).1
unfolding rx_list
rx_chr_ready s ws c xs v e =
    let r = rx_chr_refines s ws v in
    let whole : seen (rx_chr s ws) ≡ (returns c, xs, ws) =
      r.0 ∙ ap (λ ys. rx_list s.script_active ys ws) e in
    (
      ap (λ (t : Outcome ℕ × List ℕ × List Wake). t.0) whole,
      ap (λ (t : Outcome ℕ × List ℕ × List Wake). t.1) whole,
      ap (λ (t : Outcome ℕ × List ℕ × List Wake). t.2) whole,
      r.1,
    )

readline-step :
    (fuel : ℕ) (s : Stdin) (ws : List Wake) (line : List ℕ) (c : ℕ)
    → (rx_chr s ws).0 ≡ returns c
    → readline (suc fuel) s ws line ≡ (
        if c == b'\n'
        then (some (returns line), (rx_chr s ws).1, (rx_chr s ws).2)
        else readline fuel
            (rx_chr s ws).1
            (rx_chr s ws).2
            (if c == b'\r' then line else line ++ c ∷ []))
unfolding readline
readline-step fuel s ws line c e = ground arith

-- With a whole line in the FIFO and fuel for its bytes, `input()` reads it without a wait: up to the
-- newline, which is dropped, as is every carriage return. What follows stays in the FIFO.
pub readline_lem :
    (xs rest : List ℕ) (fuel : ℕ) (s : Stdin) (ws : List Wake) (line : List ℕ)
    → IsValid s
    → contents s ≡ xs ++ b'\n' ∷ rest
    → NoNewline xs
    → length xs < fuel
    → let r = readline fuel s ws line in
      (r.0 ≡ some (returns (line ++ strip xs))) × (contents r.1 ≡ rest) × (r.2 ≡ ws)
unfolding strip
readline_lem xs rest zero s ws line v e n f = absurd (omega arith)
readline_lem [] rest (suc fuel) s ws line v e n f =
    let r = rx_chr_ready s ws b'\n' rest v e in
    rw (readline-step fuel s ws line b'\n' r.0) (ground (arith, append-nil line), r.1, r.2)
readline_lem (x ∷ xs) rest (suc fuel) s ws line v e n f =
    let r = rx_chr_ready s ws x (xs ++ b'\n' ∷ rest) v e in
    let ih =
      readline_lem xs rest fuel (rx_chr s ws).1 (rx_chr s ws).2
        (if x == b'\r' then line else line ++ x ∷ []) r.3 r.1 n.1 (omega arith) in
    let other : (x == b'\n') ≡ false = ground arith in
    let kept : (if x == b'\r' then line else line ++ x ∷ []) ++ strip xs ≡ line ++ strip (x ∷ xs) =
      ground (arith, append_assoc line (x ∷ []) (strip xs)) in
    rw (readline-step fuel s ws line x r.0, other)
      (ih.0 ∙ ap (λ l. some (returns l)) kept, ih.1, ih.2 ∙ r.2)
