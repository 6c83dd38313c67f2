-- ===== src/Queue/Fifo.antt =====
-- What a queue promises: a list of at most `cap` items, oldest first.
use upy_android.Prelude.{ℕ, Bool, true, false, List, [], ◌∷◌, ◌++◌, if◌then◌else◌, ◌==◌, length}
use upy_android.Prelude.Words.{null}
use upy_android.Queue.{Call, pushes, pops, peeks, sizes, tests_empty, flushes}
use upy_android.Queue.{Reply, accepted, item, count, done}

module _ (cap : ℕ) where
  unfoldable pub push : List ℕ → ℕ → Bool × List ℕ
  push xs x = if length xs == cap then (false, xs) else (true, xs ++ x ∷ [])

unfoldable pub pop : List ℕ → ℕ × List ℕ
pop [] = (null, [])
pop (x ∷ xs) = (x, xs)

-- NULL is never stored.
unfoldable pub push_item : ℕ → List ℕ → ℕ → Bool × List ℕ
unfolding push
push_item cap xs x = if x == null then (false, xs) else push cap xs x

unfoldable pub call : ℕ → List ℕ → Call → Reply × List ℕ
unfolding push_item pop
call cap xs (pushes x) = (accepted (push_item cap xs x).0, (push_item cap xs x).1)
call cap xs pops = (item (pop xs).0, (pop xs).1)
call cap xs peeks = (item (pop xs).0, xs)
call cap xs sizes = (count (length xs), xs)
call cap xs tests_empty = (accepted (length xs == 0), xs)
call cap xs flushes = (done, [])

unfoldable pub run : ℕ → List ℕ → List Call → List Reply
unfolding call
run cap xs [] = []
run cap xs (c ∷ cs) = (call cap xs c).0 ∷ run cap (call cap xs c).1 cs
