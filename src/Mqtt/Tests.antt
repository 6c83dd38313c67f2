-- ===== src/Mqtt/Tests.antt =====
-- Runs of an MQTT client: made, used, closed, and deleted by the reset.
use upy_android.Prelude.{ℕ, ◌≡◌, refl, Bool, true, false, Option, none, some, [], ◌∷◌, arith}
use upy_android.Prelude.Ints.{pos}
use upy_android.Prelude.Raise.{returned, raised, memory_error}
use upy_android.Mqtt.{
  str, World, Args, Answers, ssl_off, make_new, with_names, with_ref, add_client, close, close_all,
  global_ref,
}
use upy_android.Mqtt.Calls.{answered}
use upy_android.Mqtt.Messages.{Message, Callback, Round, bad_node, wait_loop, wait_msg}
use upy_android.Mqtt.Registry.{has_address, has_ref, refs}
use upy_android.Mqtt.Inv.{Inv, live}
use upy_android.Mqtt.Making.{IsFresh}
use upy_android.Mqtt.Deleting.{close_all_lem, make_new_leaks}
use upy_android.Mqtt.Moves.{Reached, at_start, moved, made, start, always_Inv}

abbrev args : Args
args = record {
  client_id = str (1 ∷ []);
  server = str (2 ∷ []);
  port = pos 0;
  user = none;
  password = none;
  keepalive = pos 0;
  ssl = ssl_off;
  other_params = false;
}

-- The object is at 5, its node at 50, and its reference is 500.
abbrev answers : Option ℕ → Answers
answers object = record {
  create = λ id server port ssl. some 500;
  new_object = object;
  new_node = 50;
}

fresh : IsFresh (answers (some 5)) start
unfolding has_address has_ref refs
fresh = record { object = λ e. ground (arith, e); node = refl; ref = λ i s p l r e. refl }

abbrev one_client : World
one_client = (make_new args (answers (some 5)) start).1

one_client_Reached : Reached one_client
one_client_Reached = moved at_start (made args (answers (some 5)) fresh)

make_new_runs : (make_new args (answers (some 5)) start).0 ≡ returned 5
unfolding make_new with_names with_ref add_client
make_new_runs = refl

always_Inv_example : Inv one_client
always_Inv_example = always_Inv one_client_Reached

-- A broker that takes what is published, and has one message.
abbrev message : Message
message = (7 ∷ [], 8 ∷ [])

abbrev callback : Callback
callback f topic payload = none

-- Rounds without a message; a callback that is scheduled closes the client in the first one, or none does.
abbrev quiet : Bool → ℕ → Round
quiet closes k = record { answer = answered none; interrupted = false; closes = closes }

-- A bug: the next poll after such a close reads the null node.
closed_in_wait : wait_msg callback 5 (quiet true) 3 one_client ≡ bad_node
unfolding wait_msg wait_loop make_new with_names with_ref add_client global_ref close
closed_in_wait = refl

close_all_lem_example : live (close_all one_client).log ≡ some []
close_all_lem_example = close_all_lem one_client always_Inv_example

make_new_leaks_example :
    ((make_new args (answers none) start).0 ≡ raised memory_error)
    × (live (close_all (make_new args (answers none) start).1).log ≡ some (500 ∷ []))
unfolding has_ref refs
make_new_leaks_example =
    make_new_leaks args (answers none) (1 ∷ []) (2 ∷ []) 500 start (always_Inv at_start) refl refl
      refl refl refl refl
