-- ===== src/Proxy/Sockets.antt =====
-- src/interface/CProxySocket.cpp, with src/socket/SocketSelect.cpp and Socket::ReceiveBytes: the loop of
-- the relay thread on its two sockets. `select` gives one answer for each turn of the loop, and each
-- socket has its own script of what `recv` answers.
use asabru_engine.Common.{
  ℕ, ◌<◌, ◌≡◌, refl, ap, ok, fault, arith, if◌then◌else◌, All, map, Bool-cases, inl, inr,
}
use asabru_engine.Common.{Bool, true, false, Option, none, some, List, [], ◌∷◌, ◌++◌, ◌∙◌}
use asabru_engine.Net.Receive.{
  bytes, failed, Event, Outcome, returns, waits, receive_bytes, receive_loop,
}
use asabru_engine.Net.Receive.Bytes.{deliver, joined, IsPiece, receive_bytes-deliver}
use asabru_engine.Net.Select.{Ready, fds_after, readable, fd_setsize, new_socket_select}
use asabru_engine.Proxy.Relay.{until_end, Transform, Answers, answers, relay_loop-forwards}
use asabru_engine.Proxy.{
  Text, CProxyHandler, Round, RelayState, upstream, downstream, round, relay_loop,
}

abbrev some_text : Outcome Text → Outcome (Option Text)
some_text (returns t events) = returns (some t) events
some_text waits = waits

-- `if (sel->Readable(socket)) { ... socket->ReceiveBytes() ... }`: what was read, if anything.
unfoldable pub read_side : List ℕ → ℕ → List Event → Outcome (Option Text)
unfolding receive_bytes readable
read_side fds fd events =
    if readable fds fd then some_text (receive_bytes events) else returns none events

-- The loop was left by `break`, is before its next `select`, is in a `recv` that does not return, or has
-- written outside a descriptor set.
pub data LoopEnd (X : Type 0) : Type 0 where
  left running blocked overran : RelayState X → LoopEnd X

module _ {X : Type 0} (handler : CProxyHandler X) (client target : ℕ) where
  unfoldable pub socket_loop : List Ready → List Event → List Event → RelayState X → LoopEnd X
  unfolding read_side new_socket_select upstream downstream
  socket_loop [] client_events target_events s = running s
  socket_loop (r ∷ answers) client_events target_events s =
      elim (new_socket_select client (some target) r) [
        | fault ↦ overran s
        | ok fds ↦ elim (read_side fds client client_events) [
          | waits ↦ blocked s
          | returns from_client client_events' ↦
              let (still_connected, s') = upstream handler from_client s in
              elim (read_side fds target target_events) [
                | waits ↦ blocked s'
                | returns from_target target_events' ↦
                    let (still_connected', s'') =
                      downstream handler from_target still_connected s' in
                    elim still_connected' [
                      | false ↦ left s''
                      | true ↦ socket_loop answers client_events' target_events' s''
                    ]
              ]
        ]
      ]

-- What a peer does in one turn: nothing, a message in pieces, the end of the stream, or an error.
pub data Side : Type 0 where
  quiet closing failing : Side
  sends : List ℕ → List (List ℕ) → Side

abbrev pub script : Side → List Event
script quiet = []
script closing = record { recv = bytes []; fionread = none } ∷ []
script failing = record { recv = failed; fionread = none } ∷ []
script (sends piece pieces) = deliver (piece ∷ pieces)

abbrev pub offered : Side → Option Text
offered quiet = none
offered closing = some []
offered failing = some []
offered (sends piece pieces) = some (joined (piece ∷ pieces))

abbrev pub speaks : Side → Bool
speaks quiet = false
speaks closing = true
speaks failing = true
speaks (sends piece pieces) = true

abbrev pub IsSide : Side → Type 0
IsSide quiet = Unit
IsSide closing = Unit
IsSide failing = Unit
IsSide (sends piece pieces) = All IsPiece (piece ∷ pieces)

pub record Turn : Type 0 where
  pub answer : Ready
  pub of_client : Side
  pub of_target : Side

abbrev pub round_of : Turn → Round
round_of t = record { from_client = offered t.of_client; from_target = offered t.of_target }

abbrev pub client_script : List Turn → List Event → List Event
client_script [] later = later
client_script (t ∷ turns) later = script t.of_client ++ client_script turns later

abbrev pub target_script : List Turn → List Event → List Event
target_script [] later = later
target_script (t ∷ turns) later = script t.of_target ++ target_script turns later

-- The descriptors fit a set, and those that `select` leaves are those of the sides that do something. A
-- failed `select` leaves both.
abbrev pub IsTurn : ℕ → ℕ → Turn → Type 0
IsTurn client target t =
    let fds = fds_after client (some target) t.answer in
    (client < fd_setsize)
    × (target < fd_setsize)
    × (readable fds client ≡ speaks t.of_client)
    × (readable fds target ≡ speaks t.of_target)
    × IsSide t.of_client
    × IsSide t.of_target

new_socket_select_lem :
    (client target : ℕ) (r : Ready)
    → client < fd_setsize
    → target < fd_setsize
    → new_socket_select client (some target) r ≡ ok (fds_after client (some target) r)
unfolding new_socket_select
new_socket_select_lem client target r k l = ground arith

read_side_lem :
    (fds : List ℕ) (fd : ℕ) (side : Side) (later : List Event)
    → readable fds fd ≡ speaks side
    → IsSide side
    → read_side fds fd (script side ++ later) ≡ returns (offered side) later
unfolding read_side
read_side_lem fds fd quiet later e h = rw e
read_side_lem fds fd closing later e h = rw (e, receive_bytes, receive_loop)
read_side_lem fds fd failing later e h = rw (e, receive_bytes, receive_loop)
read_side_lem fds fd (sends piece pieces) later e h =
    rw e (ap some_text (receive_bytes-deliver piece pieces later h))

abbrev pub loop_end : {X : Type 0} → Bool × RelayState X × List Round → LoopEnd X
loop_end (true, s, rounds) = left s
loop_end (false, s, rounds) = running s

-- Whatever the handler does, on two sockets with descriptors below FD_SETSIZE whose `select` answers name
-- the sides that do something, and whose peers send their messages in pieces as ReceiveBytes takes them,
-- close or fail, the relay never blocks, and it sends, and ends, as its loop does over the rounds of the
-- whole messages.
pub socket_loop-relay_loop :
    {X : Type 0} (handler : CProxyHandler X) (client target : ℕ) (turns : List Turn)
    (client_later target_later : List Event) (s : RelayState X)
    → All (IsTurn client target) turns
    → socket_loop handler client target
        (map (λ t. t.answer) turns)
        (client_script turns client_later)
        (target_script turns target_later)
        s
      ≡ loop_end (relay_loop handler (map round_of turns) s)
unfolding socket_loop relay_loop round
socket_loop-relay_loop handler client target [] cl tl s h = refl
socket_loop-relay_loop handler client target (t ∷ turns) cl tl s ((k, l, c, g, i, j), h) =
    let up = upstream handler (offered t.of_client) s in
    let down = downstream handler (offered t.of_target) up.0 up.1 in
    rw
      (
        new_socket_select_lem client target t.answer k l,
        socket_loop,
        read_side_lem _ client t.of_client (client_script turns cl) c i,
      )
      (rw (read_side_lem _ target t.of_target (target_script turns tl) g j)
        (elim (Bool-cases down.0) [
          | inl e ↦
              rw (e, relay_loop) (socket_loop-relay_loop handler client target turns cl tl down.1 h)
          | inr e ↦ rw (e, relay_loop)
        ]))

-- End to end: with a handler that answers every text and never throws, each message that a side sends,
-- in however many pieces, gets one answer for the other side, in order, up to the turn in which a side
-- closes or fails; the relay leaves its loop in that turn, and in no other.
pub socket_loop-forwards :
    {X : Type 0} (handler : CProxyHandler X) (f : Transform X)
    → Answers handler f
    → (client target : ℕ) (turns : List Turn) (client_later target_later : List Event)
      (s : RelayState X)
    → All (IsTurn client target) turns
    → let taken = until_end (map round_of turns) in
      let answered = answers f s.context taken.0 in
      socket_loop handler client target
        (map (λ t. t.answer) turns)
        (client_script turns client_later)
        (target_script turns target_later)
        s
      ≡ loop_end (
        taken.1,
        record {
          context = answered.2;
          to_target = s.to_target ++ answered.0;
          to_client = s.to_client ++ answered.1;
        },
        taken.2,
      )
socket_loop-forwards handler f ups client target turns cl tl s h =
    socket_loop-relay_loop handler client target turns cl tl s h
    ∙ ap loop_end (relay_loop-forwards handler f ups (map round_of turns) s)
