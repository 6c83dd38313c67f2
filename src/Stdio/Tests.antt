-- ===== src/Stdio/Tests.antt =====
-- Runs of the streams.
use upy_android.Prelude.{ℕ, true, false, List, [], ◌∷◌, arith, if◌then◌else◌, ◌==◌}
use upy_android.Stdin.{Stdin, Wake, feeds}
use upy_android.Stdin.Fifo.{IsValid}
use upy_android.Output.{Output}
use upy_android.Stdio.{Fd, fd_in, fd_out, fd_err}

-- "a", "\r", "\n", "b" in the middle of the ring.
abbrev typed : Stdin
typed = record {
  buf = λ i. if i == 10 then b'a' else if i == 11 then b'\r' else if i == 12 then b'\n' else b'b';
  head = 10;
  len = 4;
  script_active = true;
  waiting = false;
  waiting_cb = true;
  told = [];
  rung = 0;
}

typed-IsValid : IsValid typed
typed-IsValid = omega arith

-- An empty FIFO, and a wait that ends with two bytes.
abbrev hungry : Stdin
hungry = record typed { len = 0 }

abbrev arrival : List Wake
arrival = record { actions = feeds (b'x' ∷ b'\r' ∷ []) ∷ []; raises = false } ∷ []

abbrev fresh : Output
fresh = record { buf = λ i. 7; len = 3; chunk_cb = true; context = 42; delivered = [] }

abbrev writes : List (Fd × List ℕ)
writes = (fd_out, b'h' ∷ b'i' ∷ []) ∷ (fd_in, b'?' ∷ []) ∷ (fd_err, []) ∷ (fd_err, b'!' ∷ []) ∷ []
