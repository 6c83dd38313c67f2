-- ===== src/Stdin.antt =====
-- native-bringup/my-overrides/mphalport.c, lines 175 to 292: the FIFO between the app, which feeds
-- a script's input, and the interpreter, which reads it. Each call holds `stdin_lock`, so the calls
-- of the threads come one after another; what other threads do while the interpreter waits in
-- `mp_event_wait_indefinite` is a list of actions.
pub mod Fifo
pub mod Steps
pub mod Blocking
pub mod Waiting
pub mod Line
mod Tests
use upy_android.Prelude.{
  ℕ, zero, suc, ◌+◌, ◌-◌, ◌*◌, ◌%◌, Bool, true, false, not, Option, none, some, List, [], ◌∷◌, ◌++◌,
  ltb, ◌==◌, ◌&&◌, if◌then◌else◌, length, take,
}
use upy_android.Prelude.Words.{update}

-- STDIN_FIFO_SIZE
abbrev pub fifo_size : ℕ
fifo_size = 64 * 1024

-- The file's static variables. `told` records the calls of the waiting callback, and `rung` counts
-- those of `mp_android_doorbell_ring`.
pub record Stdin : Type 0 where
  pub buf : ℕ → ℕ
  pub head : ℕ
  pub len : ℕ
  pub script_active : Bool
  pub waiting : Bool
  pub waiting_cb : Bool
  pub told : List Bool
  pub rung : ℕ

-- `mp_android_stdin_set_waiting_cb`
pub set_waiting_cb : Stdin → Bool → Stdin
set_waiting_cb s cb = record s { waiting_cb = cb }

abbrev same_bool : Bool → Bool → Bool
same_bool true b = b
same_bool false b = not b

-- `stdin_set_waiting`
pub set_waiting : Stdin → Bool → Stdin
set_waiting s w =
    if same_bool s.waiting w
    then s
    else record s { waiting = w; told = if s.waiting_cb then s.told ++ w ∷ [] else s.told }

-- `mp_android_script_active`
pub script_active : Stdin → Bool → Stdin
unfolding set_waiting
script_active s active =
    let s' = record s { script_active = active; len = 0 } in
    if active then s' else set_waiting s' false

-- `mp_android_stdin_clear`
pub clear : Stdin → Stdin
clear s = record s { len = 0 }

-- The loop of `mp_android_stdin_push`, from ring position `pos` on.
pub store : (ℕ → ℕ) → ℕ → List ℕ → ℕ → ℕ
store buf pos [] = buf
store buf pos (x ∷ xs) = store (update buf (pos % fifo_size) x) (suc pos) xs

-- How many of `n` bytes are accepted.
abbrev pub accepts : Stdin → ℕ → ℕ
accepts s n = if ltb n (fifo_size - s.len) then n else fifo_size - s.len

-- `mp_android_stdin_push`: the bytes accepted, or `none` for -1.
pub push : Stdin → List ℕ → Option ℕ × Stdin
unfolding store
push s bytes =
    if s.script_active
    then (
      some (accepts s (length bytes)),
      record s {
        buf = store s.buf (s.head + s.len) (take (accepts s (length bytes)) bytes);
        len = s.len + accepts s (length bytes);
        rung = s.rung + 1;
      },
    )
    else (none, s)

-- The loop of `mp_android_stdin_read_available`, from ring position `pos` on.
unfoldable pub load : (ℕ → ℕ) → ℕ → ℕ → List ℕ
load buf pos zero = []
load buf pos (suc n) = buf (pos % fifo_size) ∷ load buf (suc pos) n

abbrev pub available : Stdin → ℕ → ℕ
available s max = if ltb s.len max then s.len else max

-- `mp_android_stdin_read_available`: the bytes copied out.
pub read_available : Stdin → ℕ → List ℕ × Stdin
unfolding load
read_available s max = (
  load s.buf s.head (available s max),
  record s { head = (s.head + available s max) % fifo_size; len = s.len - available s max },
)

-- What other threads do during a wait, and whether the wait raises the pending exception.
pub data Action : Type 0 where
  feeds : List ℕ → Action
  clears : Action

pub record Wake : Type 0 where
  pub actions : List Action
  pub raises : Bool

pub act : Stdin → List Action → Stdin
unfolding push clear
act s [] = s
act s (feeds bytes ∷ rest) = act (push s bytes).1 rest
act s (clears ∷ rest) = act (clear s) rest

-- How a blocking call ends: with a value, with an exception, or still waiting when the wakes of the
-- schedule are used up.
pub data Outcome {ℓ} (A : Type ℓ) : Type ℓ where
  returns : A → Outcome A
  raised : Outcome A
  blocked : Outcome A

-- What is behind a read of one byte in `mp_hal_stdin_rx_chr`.
abbrev pub got : Bool → ℕ → Stdin → List Wake → Outcome ℕ × Stdin × List Wake
got announced c s ws = (returns c, if announced then set_waiting s false else s, ws)

-- The loop of `mp_hal_stdin_rx_chr`, one round for each wake: at most one byte is read, and an
-- empty FIFO is waited on.
pub rx_loop : Stdin → Bool → List Wake → Outcome ℕ × Stdin × List Wake
unfolding read_available act set_waiting
rx_loop s announced [] =
    let (bytes, s0) = read_available s 1 in
    elim bytes [
      | c ∷ rest ↦ got announced c s0 []
      | [] ↦ (blocked, (if announced then s0 else set_waiting s0 true), [])
    ]
rx_loop s announced (w ∷ ws) =
    let (bytes, s0) = read_available s 1 in
    let s1 = if announced then s0 else set_waiting s0 true in
    let s2 = act s1 w.actions in
    let rest_of_loop = rx_loop s2 true ws in
    elim bytes [
      | c ∷ rest ↦ got announced c s0 (w ∷ ws)
      | [] ↦ if w.raises then (raised, s2, ws) else rest_of_loop
    ]

-- `mp_hal_stdin_rx_chr`
unfoldable pub rx_chr : Stdin → List Wake → Outcome ℕ × Stdin × List Wake
unfolding rx_loop
rx_chr s ws = rx_loop s false ws

-- The flags of a poll: MP_STREAM_POLL_RD and MP_STREAM_POLL_WR.
pub record Poll : Type 0 where
  pub rd : Bool
  pub wr : Bool

-- `mp_hal_stdio_poll`
pub stdio_poll : Stdin → Poll → Poll
stdio_poll s flags = record { rd = flags.rd && ltb 0 s.len; wr = flags.wr }

-- `mp_android_readline`. The loop reads a byte each round; the fuel bounds the rounds.
pub readline : ℕ → Stdin → List Wake → List ℕ → Option (Outcome (List ℕ)) × Stdin × List Wake
unfolding rx_chr
readline zero s ws line = (none, s, ws)
readline (suc fuel) s ws line =
    let r = rx_chr s ws in
    let more = λ (c : ℕ). readline fuel r.1 r.2 (if c == b'\r' then line else line ++ c ∷ []) in
    elim r.0 [
      | returns c ↦ if c == b'\n' then (some (returns line), r.1, r.2) else more c
      | raised ↦ (some raised, r.1, r.2)
      | blocked ↦ (some blocked, r.1, r.2)
    ]
