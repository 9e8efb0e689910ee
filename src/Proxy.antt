-- ===== src/Proxy.antt =====
-- src/interface/CProxySocket.cpp, CProxySocket.h and LibuvProxySocket.cpp: the thread that relays one
-- client. The kernel, the handler and the clock are not the program's: each round of the loop is given
-- as what the sockets have to offer then, and the handler is a parameter that may throw.
pub mod Relay
pub mod Setup
pub mod Variants
pub mod Libuv
pub mod Sockets
pub mod Leaving
pub mod Stream
mod Examples
use asabru_engine.Common.{ℕ, ◌+◌, ◌==◌, if◌then◌else◌, Bool, true, false, List, [], ◌∷◌, ◌++◌, not}
use asabru_engine.Common.{Option, none, some}

abbrev pub Text : Type 0
Text = List ℕ

-- A call that may throw.
pub data Attempt (A : Type 0) : Type 0 where
  done : A → Attempt A
  thrown : Attempt A

-- CProxyHandler: each call may change the execution context.
pub record CProxyHandler (X : Type 0) : Type 0 where
  pub handle_upstream_data : Text → X → Attempt Text × X
  pub handle_downstream_data : Text → X → Attempt Text × X

-- One round: for each side whether `select` reports it readable, and if so what ReceiveBytes gives.
pub record Round : Type 0 where
  pub from_client : Option Text
  pub from_target : Option Text

-- The variables of the loop, with all that was sent: each `SendBytes` adds one entry.
pub record RelayState (X : Type 0) : Type 0 where
  pub context : X
  pub to_target : List Text
  pub to_client : List Text

abbrev pub is_empty : Text → Bool
is_empty [] = true
is_empty (b ∷ bs) = false

module _ {X : Type 0} (handler : CProxyHandler X) where
  -- The first `try` of a round, and the value of `still_connected` behind it. An exception of the
  -- handler skips the send and the test for the end of the stream.
  unfoldable pub upstream : Option Text → RelayState X → Bool × RelayState X
  upstream none s = (true, s)
  upstream (some bytes) s =
      let (response, context') = handler.handle_upstream_data bytes s.context in
      elim response [
        | thrown ↦ (true, record s { context = context' })
        | done text ↦ (
          not (is_empty bytes),
          record s { context = context'; to_target = s.to_target ++ (text ∷ []) },
        )
      ]

  -- The second `try`, which can only clear `still_connected`.
  unfoldable pub downstream : Option Text → Bool → RelayState X → Bool × RelayState X
  downstream none still_connected s = (still_connected, s)
  downstream (some bytes) still_connected s =
      let (response, context') = handler.handle_downstream_data bytes s.context in
      elim response [
        | thrown ↦ (still_connected, record s { context = context' })
        | done text ↦ (
          (if is_empty bytes then false else still_connected),
          record s { context = context'; to_client = s.to_client ++ (text ∷ []) },
        )
      ]

  unfoldable pub round : Round → RelayState X → Bool × RelayState X
  round r s =
      let (still_connected, s') = upstream r.from_client s in
      downstream r.from_target still_connected s'

  -- The `while (true)` of ThreadHandler over the rounds that come: whether it left by `break`, the
  -- state, and the rounds that it did not take.
  unfoldable pub relay_loop : List Round → RelayState X → Bool × RelayState X × List Round
  relay_loop [] s = (false, s, [])
  relay_loop (r ∷ rounds) s =
      let (still_connected, s') = round r s in
      elim still_connected [ false ↦ (true, s', rounds) | true ↦ relay_loop rounds s' ]

-- The fields that the code reads of what the load balancer resolves a request to.
pub record ResolvedService : Type 0 where
  pub ipaddress : Text
  pub port : ℕ
  pub r_w : ℕ
  pub alias : Text
  pub source_hostname : Text

-- How a thread ends, or that it is still in its loop when the rounds run out.
pub data ThreadEnd (X : Type 0) : Type 0 where
  no_handler connect_threw : ThreadEnd X
  disconnected : RelayState X → List Round → ThreadEnd X
  relaying : RelayState X → ThreadEnd X

abbrev pub start_state : {X : Type 0} → X → RelayState X
start_state x = record { context = x; to_target = []; to_client = [] }

abbrev pub thread_end : {X : Type 0} → Bool × RelayState X × List Round → ThreadEnd X
thread_end (true, s, rounds) = disconnected s rounds
thread_end (false, s, rounds) = relaying s

-- CProxySocket::ThreadHandler. `connects` says whether the constructor of CClientSocket succeeds for an
-- address and a port; the socket options that are set have no part in the model.
unfoldable pub thread_handler :
    {X : Type 0}
    → Option (CProxyHandler X)
    → ResolvedService
    → (Text → ℕ → Bool)
    → X
    → List Round
    → ThreadEnd X
thread_handler none service connects x rounds = no_handler
thread_handler (some handler) service connects x rounds =
    if connects service.ipaddress service.port
    then thread_end (relay_loop handler rounds (start_state x))
    else connect_threw
