-- ===== src/Stdio.antt =====
-- native-bringup/my-overrides/shared-runtime/sys_stdio_mphal.c: sys.stdin, sys.stdout and sys.stderr
-- as streams over `Stdin` and `Output`.
pub mod Reading
pub mod Writing
mod Tests
use upy_android.Prelude.{
  ℕ, zero, suc, ◌≡◌, Bool, true, false, Option, none, some, List, [], ◌∷◌, ◌++◌, map, ◌==◌,
  if◌then◌else◌, length,
}
use upy_android.Stdin
use upy_android.Stdin.{Stdin, Wake, Outcome, returns, raised, blocked, rx_chr, read_available, Poll}
use upy_android.Output
use upy_android.Output.{Output, tx_strn_cooked, tx_strn}

-- STDIO_FD_IN, STDIO_FD_OUT and STDIO_FD_ERR
pub data Fd : Type 0 where
  fd_in fd_out fd_err : Fd

-- What `errcode` is set to where a call returns MP_STREAM_ERROR.
pub data Errcode : Type 0 where
  eperm einval : Errcode

-- What a stream call returns.
pub data Reply {ℓ} (A : Type ℓ) : Type ℓ where
  ok : A → Reply A
  error : Errcode → Reply A

-- `if (c == '\r') c = '\n';`
abbrev pub newline : ℕ → ℕ
newline c = if c == b'\r' then b'\n' else c

abbrev with_byte : ℕ → Outcome (List ℕ) → Outcome (List ℕ)
with_byte c (returns cs) = returns (c ∷ cs)
with_byte c raised = raised
with_byte c blocked = blocked

-- The loops of `stdio_read` and `stdio_buffer_read`, for `n` more bytes, each changed by `f`. An
-- exception leaves them.
pub read_loop : (ℕ → ℕ) → ℕ → Stdin → List Wake → Outcome (List ℕ) × Stdin × List Wake
read_loop f zero s ws = (returns [], s, ws)
read_loop f (suc n) s ws =
    let r = rx_chr s ws in
    let rest = read_loop f n r.1 r.2 in
    elim r.0 [
      | returns c ↦ (with_byte (f c) rest.0, rest.1, rest.2)
      | raised ↦ (raised, r.1, r.2)
      | blocked ↦ (blocked, r.1, r.2)
    ]

-- `stdio_read`
pub stdio_read : Fd → ℕ → Stdin → List Wake → Reply (Outcome (List ℕ)) × Stdin × List Wake
unfolding read_loop
stdio_read fd_in size s ws = let r = read_loop newline size s ws in (ok r.0, r.1, r.2)
stdio_read fd_out size s ws = (error eperm, s, ws)
stdio_read fd_err size s ws = (error eperm, s, ws)

-- `stdio_buffer_read`
pub stdio_buffer_read : ℕ → Stdin → List Wake → Outcome (List ℕ) × Stdin × List Wake
unfolding read_loop
stdio_buffer_read size s ws = read_loop (λ c. c) size s ws

-- `stdio_write`
pub stdio_write : Fd → List ℕ → Output → Reply ℕ × Output
stdio_write fd_in str o = (error eperm, o)
stdio_write fd_out str o = (ok (length str), tx_strn_cooked o str)
stdio_write fd_err str o = (ok (length str), tx_strn_cooked o str)

-- `stdio_buffer_write`
pub stdio_buffer_write : List ℕ → Output → ℕ × Output
stdio_buffer_write str o = tx_strn o str

-- The requests of `stdio_ioctl`, and what it returns: the flags that are ready, or 0.
pub data Request : Type 0 where
  poll : Poll → Request
  close other : Request

pub data Answer : Type 0 where
  ready : Poll → Answer
  closed : Answer

pub stdio_ioctl : Request → Stdin → Reply Answer
stdio_ioctl (poll flags) s = ok (ready (Stdin.stdio_poll s flags))
stdio_ioctl close s = ok closed
stdio_ioctl other s = error einval

-- The size of `chunk` in `stdio_read_method`.
abbrev pub chunk_size : ℕ
chunk_size = 64

-- The `while` of `stdio_read_method`, which empties the FIFO. The fuel bounds its rounds.
pub drain : ℕ → Stdin → List ℕ → Option (List ℕ) × Stdin
drain zero s bytes = (none, s)
drain (suc fuel) s bytes =
    let (chunk, s') = read_available s chunk_size in
    let more = drain fuel s' (bytes ++ chunk) in
    elim chunk [ [] ↦ (some bytes, s') | c ∷ cs ↦ more ]

-- The branch of `stdio_read_method` that reads all there is from sys.stdin.
pub read_all : ℕ → Stdin → List Wake → Option (Outcome (List ℕ)) × Stdin × List Wake
unfolding drain
read_all fuel s ws =
    let r = rx_chr s ws in
    elim r.0 [
      | returns c ↦
          let d = drain fuel r.1 (c ∷ []) in
          (elim d.0 [ none ↦ none | some bytes ↦ some (returns (map newline bytes)) ], d.1, r.2)
      | raised ↦ (some raised, r.1, r.2)
      | blocked ↦ (some blocked, r.1, r.2)
    ]
