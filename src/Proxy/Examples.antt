-- ===== src/Proxy/Examples.antt =====
-- The relay's theorems on a few rounds, with a handler that adds a byte and one that throws.
use asabru_engine.Common.{
  ok, fault, ℕ, ◌+◌, if◌then◌else◌, ◌≡◌, refl, true, false, none, some, List, [], ◌∷◌, map, All,
  arith,
}
use asabru_engine.Proxy.{
  Text, done, thrown, CProxyHandler, Round, RelayState, relay_loop, ResolvedService, thread_handler,
  start_state, is_empty,
}
use asabru_engine.Proxy.Relay.{until_end, Transform, answers}
use asabru_engine.Net.Select.{ready, select_error, contains, select_set, fds_after, readable}
use asabru_engine.Proxy.Sockets.{
  quiet, closing, failing, sends, Turn, IsTurn, round_of, client_script, target_script, loop_end,
  socket_loop, socket_loop-relay_loop, left, running,
}
use asabru_engine.Common.{◌⊎◌, ◌↔◌, ◌==◌}
use asabru_engine.Net.Receive.Bytes.{joined}
use asabru_engine.Net.Send.{Sent, took, refused}
use asabru_engine.Proxy.Stream.{AllTaken, state_of, wires, socket_loop-stream}
use asabru_engine.Proxy.Leaving.{any_over, socket_loop-leaves}
use asabru_engine.Proxy.Libuv.{
  reaches_target, libuv_thread_handler, libuv_thread_handler-thread_handler,
}

abbrev mark : Text → Text
mark t = 33 ∷ t

abbrev marking : CProxyHandler ℕ
marking = record {
  handle_upstream_data = λ t x. (done (mark t), x);
  handle_downstream_data = λ t x. (done (mark t), x);
}

abbrev fresh : RelayState ℕ
fresh = start_state 0

abbrev some_rounds : List Round
some_rounds =
    record { from_client = some (1 ∷ 2 ∷ []); from_target = none }
    ∷ record { from_client = none; from_target = some (3 ∷ []) }
    ∷ record { from_client = some []; from_target = some (4 ∷ []) }
    ∷ record { from_client = some (5 ∷ []); from_target = none }
    ∷ []

abbrev some_turns : List Turn
some_turns =
    record {
      answer = ready (5 ∷ []);
      of_client = sends (1 ∷ 2 ∷ []) ((3 ∷ []) ∷ []);
      of_target = quiet;
    }
    ∷ record {
      answer = ready (6 ∷ 5 ∷ []);
      of_client = sends (4 ∷ []) [];
      of_target = sends (7 ∷ []) [];
    }
    ∷ record { answer = select_error; of_client = closing; of_target = failing }
    ∷ []

some_turns-IsTurn : All (IsTurn 5 6) some_turns
unfolding readable fds_after contains select_set
some_turns-IsTurn = (
  (
    omega arith,
    omega arith,
    refl,
    refl,
    ((omega arith, omega arith), ((omega arith, omega arith), tt)),
    tt,
  ),
  (
    (
      omega arith,
      omega arith,
      refl,
      refl,
      ((omega arith, omega arith), tt),
      ((omega arith, omega arith), tt),
    ),
    ((omega arith, omega arith, refl, refl, tt, tt), tt),
  ),
)

socket_loop-relay_loop_example :
    socket_loop marking 5 6
      (map (λ t. t.answer) some_turns)
      (client_script some_turns [])
      (target_script some_turns [])
      fresh
    ≡ loop_end (relay_loop marking (map round_of some_turns) fresh)
socket_loop-relay_loop_example =
    socket_loop-relay_loop marking 5 6 some_turns [] [] fresh some_turns-IsTurn

-- The first send to the target takes two bytes, every other call takes all; the client's takes nothing.
abbrev on_target : ℕ → Sent
on_target i = if i == 0 then took 2 else took 1024

abbrev on_client : ℕ → Sent
on_client i = refused

-- A handler that puts the number of the texts before it in front of each.
abbrev counting : CProxyHandler ℕ
counting = record {
  handle_upstream_data = λ t x. (done (x ∷ t), x + 1);
  handle_downstream_data = λ t x. (done (x ∷ t), x + 1);
}

abbrev counts : Transform ℕ
counts = record {
  up = λ t x. x ∷ t;
  up_context = λ t x. x + 1;
  down = λ t x. x ∷ t;
  down_context = λ t x. x + 1;
}

socket_loop-stream_example :
    let taken = until_end (map round_of some_turns) in
    let answered = answers counts 0 taken.0 in
    let result =
      socket_loop counting 5 6
        (map (λ t. t.answer) some_turns)
        (client_script some_turns [])
        (target_script some_turns [])
        (start_state 0) in
    (result
      ≡ loop_end (
        taken.1,
        record { context = answered.2; to_target = answered.0; to_client = answered.1 },
        taken.2,
      ))
    × ((wires on_target on_client (state_of result) ≡ (joined answered.0, joined answered.1))
        ↔ (AllTaken on_target 0 answered.0 × AllTaken on_client 0 answered.1))
socket_loop-stream_example =
    socket_loop-stream counting counts (λ t x. refl, λ t x. refl) 5 6 some_turns [] [] 0
      some_turns-IsTurn on_target on_client

-- A handler that throws on every text that a client really sends.
abbrev grumpy : CProxyHandler ℕ
grumpy = record {
  handle_upstream_data = λ t x. (if is_empty t then done t else thrown, x);
  handle_downstream_data = λ t x. (done t, x);
}

socket_loop-leaves_example :
    let result =
      socket_loop grumpy 5 6
        (map (λ t. t.answer) some_turns)
        (client_script some_turns [])
        (target_script some_turns [])
        fresh in
    ((any_over some_turns ≡ true) × (s' : RelayState ℕ) × (result ≡ left s'))
    ⊎ ((any_over some_turns ≡ false) × (s' : RelayState ℕ) × (result ≡ running s'))
socket_loop-leaves_example =
    socket_loop-leaves grumpy (λ x. ([], refl)) (λ x. ([], refl)) 5 6 some_turns [] [] fresh
      some_turns-IsTurn

abbrev some_service : ResolvedService
some_service = record {
  ipaddress = 49 ∷ [];
  port = 9000;
  r_w = 0;
  alias = [];
  source_hostname = 104 ∷ [];
}

libuv_thread_handler-thread_handler_example :
    (libuv_thread_handler (some marking) some_service (λ a p. true) 0 (some 5) some_rounds
      ≡ ok (thread_handler (some marking) some_service (λ a p. true) 0 some_rounds))
    × (libuv_thread_handler (some marking) some_service (λ a p. true) 0 none some_rounds ≡ (
        if reaches_target (some marking) some_service (λ a p. true)
        then fault
        else ok (thread_handler (some marking) some_service (λ a p. true) 0 some_rounds)))
libuv_thread_handler-thread_handler_example =
    libuv_thread_handler-thread_handler (some marking) some_service (λ a p. true) 0 5 some_rounds
