-- ===== src/Stdin/Tests.antt =====
-- Runs of the input FIFO.
use upy_android.Prelude.{
  ◌-◌, ◌≡◌, refl, true, false, some, List, [], ◌∷◌, ◌++◌, ◌==◌, arith, if◌then◌else◌, ◌&&◌, length,
  take, min,
}
use upy_android.Stdin.{
  Stdin, Wake, feeds, clears, returns, fifo_size, push, load, rx_chr, script_active,
}
use upy_android.Stdin.Fifo.{IsValid, contents, push_refines}
use upy_android.Stdin.Blocking.{rx_chr_refines, rx_list, seen}
use upy_android.Stdin.Waiting.{rx_chr-told, telling, waits_after}

-- "a", "\r", "\n", "b" round the end of the ring.
abbrev typed : Stdin
typed = record {
  buf = λ i. if i == 65535 then b'a' else if i == 0 then b'\r' else if i == 1 then b'\n' else b'b';
  head = 65535;
  len = 4;
  script_active = true;
  waiting = false;
  waiting_cb = true;
  told = [];
  rung = 0;
}

abbrev hungry : Stdin
hungry = record typed { head = 7; len = 0 }

abbrev wakes : List Wake
wakes =
    record { actions = []; raises = false }
    ∷ record { actions = feeds (b'x' ∷ b'y' ∷ []) ∷ clears ∷ []; raises = false }
    ∷ record { actions = feeds (b'z' ∷ []) ∷ []; raises = false }
    ∷ []

typed-IsValid : IsValid typed
typed-IsValid = omega arith

hungry-IsValid : IsValid hungry
hungry-IsValid = omega arith

contents-typed : contents typed ≡ b'a' ∷ b'\r' ∷ b'\n' ∷ b'b' ∷ []
unfolding contents load
contents-typed = refl

-- A spurious wake, then bytes that are cleared again, then the byte that is returned.
rx_chr-hungry :
    ((rx_chr hungry wakes).0 ≡ returns b'z') × ((rx_chr hungry wakes).1.told ≡ true ∷ false ∷ [])
unfolding rx_chr load
rx_chr-hungry = (refl, refl)

push_refines_example :
    ((push typed (1 ∷ 2 ∷ [])).0 ≡ some (min 2 (fifo_size - 4)))
    × (contents (push typed (1 ∷ 2 ∷ [])).1
        ≡ contents typed ++ take (fifo_size - length (contents typed)) (1 ∷ 2 ∷ []))
    × IsValid (push typed (1 ∷ 2 ∷ [])).1
    × ((push typed (1 ∷ 2 ∷ [])).1 ≡ record typed {
      buf = (push typed (1 ∷ 2 ∷ [])).1.buf;
      len = (push typed (1 ∷ 2 ∷ [])).1.len;
      rung = 1;
    })
push_refines_example = push_refines typed (1 ∷ 2 ∷ []) typed-IsValid

rx_chr_refines_example :
    (seen (rx_chr hungry wakes) ≡ rx_list true (contents hungry) wakes)
    × IsValid (rx_chr hungry wakes).1
rx_chr_refines_example = rx_chr_refines hungry wakes hungry-IsValid

rx_chr-told_example :
    let r = rx_chr hungry wakes in
    (r.1.told ≡ [] ++ telling (contents hungry) r.0)
    × (r.1.waiting ≡ waits_after (contents hungry) r.0)
    × ((script_active r.1 false).waiting ≡ false)
    × ((script_active r.1 false).told
        ≡ (if r.1.waiting && r.1.waiting_cb then r.1.told ++ false ∷ [] else r.1.told))
rx_chr-told_example = rx_chr-told hungry wakes hungry-IsValid refl refl
