-- ===== src/Server/Libuv.antt =====
-- src/libuv-socket/LibuvServerSocket.cpp and LibuvServerSocket.h: the listener on libuv's event loop, and
-- what the thread of LibuvProxySocket makes of the client data that it is given. Libuv is not the
-- program's: what its calls answer enters as arguments, a handle is a number, and the pairs of handles
-- that are open are listed.
use asabru_engine.Common.{
  ℕ, ◌==◌, ltb, ◌≡◌, ◌≢◌, if◌then◌else◌, arith, Bool, true, false, List, [], ◌∷◌, ◌++◌, length,
}
use asabru_engine.Common.{
  Option, none, some, Checked, ok, fault, ap, Bool-cases, inl, inr, until_zero, refl,
}
use asabru_engine.Proxy.{
  Text, CProxyHandler, ResolvedService, Round, no_handler, connect_threw, disconnected, relaying,
}
use asabru_engine.Proxy.Libuv.{libuv_thread_handler}
use asabru_engine.Server.{NodeInfo, ClientData, node_info_room}

pub record LibuvServerSocket (R : Type 0) : Type 0 where
  pub m_protocol_port : ℕ
  pub max_connections : ℕ
  pub info : NodeInfo
  pub thread_routine : Option R

-- How a call of a routine ends: it returns; an exception leaves it; it was undefined; or it does not come
-- back.
pub data RoutineEnd : Type 0 where
  returned escaped undefined_behaviour running_on : RoutineEnd

-- ClientThreadProc calls the routine of the instance and answers 0; an exception of the routine goes on
-- to the caller, as does that of a std::function that is empty. `call` is what a routine does.
unfoldable pub libuv_client_thread_proc :
    {R : Type 0} → (R → ClientData → RoutineEnd) → Option R → ClientData → RoutineEnd
libuv_client_thread_proc call none client = escaped
libuv_client_thread_proc call (some routine) client = call routine client

module _ {R : Type 0} where
  unfoldable pub new_libuv_server_socket : ℕ → ℕ → LibuvServerSocket R
  new_libuv_server_socket port num_of_connections = record {
    m_protocol_port = port;
    max_connections = num_of_connections;
    info = record { node_info = []; mode = 0; ptr_to_instance = 0 };
    thread_routine = none;
  }

  unfoldable pub libuv_start_listening_thread :
      ℕ → Text → R → LibuvServerSocket R → Checked (Bool × LibuvServerSocket R)
  libuv_start_listening_thread this node_info routine c =
      if ltb (length (until_zero node_info)) node_info_room
      then ok (
        true,
        record c {
          info = record { node_info = until_zero node_info; mode = 1; ptr_to_instance = this };
          thread_routine = some routine;
        },
      )
      else fault

  -- Open only starts the thread: the port is bound on it.
  unfoldable pub libuv_open :
      ℕ → Text → R → LibuvServerSocket R → Checked (Bool × LibuvServerSocket R)
  unfolding libuv_start_listening_thread
  libuv_open this node_info routine c = libuv_start_listening_thread this node_info routine c

-- A call of on_new_connection: the status, whether `uv_accept` succeeds, and the pair of handles.
pub record Incoming : Type 0 where
  pub status_ok : Bool
  pub accepts : Bool
  pub pair : ℕ × ℕ

-- The pairs of handles that are open, and the client data that the thread routine was called with.
pub record LoopState : Type 0 where
  pub handles : List (ℕ × ℕ)
  pub served : List ClientData

unfoldable pub libuv_client_data : NodeInfo → ℕ × ℕ → ClientData
libuv_client_data info pair = record {
  client_port = none;
  remote_addr = none;
  ptr_to_instance = info.ptr_to_instance;
  node_info = info.node_info;
  mode = info.mode;
  client_socket = none;
  client_target_pair = some pair;
}

-- How a callback, or the loop, ends: it goes on; the routine was undefined; its exception left the
-- callback; or it waits for the routine.
pub data LoopResult : Type 0 where
  went_on faulted escaped_from busy : LoopState → LoopResult

-- The callback runs the routine itself: the loop waits for it.
module _ {R : Type 0} (call : R → ClientData → RoutineEnd) (routine : Option R)
    (info : NodeInfo) where
  unfoldable pub on_new_connection : Incoming → LoopState → LoopResult
  unfolding libuv_client_data libuv_client_thread_proc
  on_new_connection incoming state =
      let client = libuv_client_data info incoming.pair in
      let state' : LoopState = record {
        handles = state.handles ++ (incoming.pair ∷ []);
        served = state.served ++ (client ∷ []);
      } in
      if incoming.status_ok
      then (if incoming.accepts
          then elim (libuv_client_thread_proc call routine client) [
            | returned ↦ went_on state'
            | undefined_behaviour ↦ faulted state'
            | escaped ↦ escaped_from state'
            | running_on ↦ busy state'
          ]
          else went_on state)
      else went_on state

  -- What `uv_run` does with the connections that come.
  unfoldable pub run_loop : List Incoming → LoopState → LoopResult
  unfolding on_new_connection
  run_loop [] state = went_on state
  run_loop (incoming ∷ later) state = elim (on_new_connection incoming state) [
    | went_on state' ↦ run_loop later state'
    | faulted state' ↦ faulted state'
    | escaped_from state' ↦ escaped_from state'
    | busy state' ↦ busy state'
  ]

-- The listener thread: no instance, an error of `uv_listen`, which is only printed, or the loop.
pub data LibuvListening : Type 0 where
  no_instance listen_error : LibuvListening
  looping : LoopResult → LibuvListening

unfoldable pub libuv_listen_thread_proc :
    {R : Type 0}
    → (R → ClientData → RoutineEnd)
    → LibuvServerSocket R
    → Bool
    → List Incoming
    → LibuvListening
unfolding run_loop
libuv_listen_thread_proc call c listens incomings =
    if c.info.ptr_to_instance == 0
    then no_instance
    else if listens
    then looping
        (run_loop call c.thread_routine c.info incomings (record { handles = []; served = [] }))
    else listen_error

-- LibuvProxySocket::ThreadHandler as a routine: an exception of CClientSocket's constructor leaves it, and
-- it does not come back while it is in its loop.
unfoldable pub libuv_proxy_thread :
    {X : Type 0}
    → Option (CProxyHandler X)
    → ResolvedService
    → (Text → ℕ → Bool)
    → X
    → ClientData
    → List Round
    → RoutineEnd
unfolding libuv_thread_handler
libuv_proxy_thread handler service connects x client rounds =
    elim (libuv_thread_handler handler service connects x client.client_socket rounds) [
      | fault ↦ undefined_behaviour
      | ok end_of ↦ elim end_of [
        | no_handler ↦ returned
        | connect_threw ↦ escaped
        | disconnected s rest ↦ returned
        | relaying s ↦ running_on
      ]
    ]

abbrev pub accepted : List Incoming → List (ℕ × ℕ)
accepted [] = []
accepted (call ∷ calls) =
    if call.status_ok
    then (if call.accepts then call.pair ∷ accepted calls else accepted calls)
    else accepted calls

-- The loop goes on without a client, or ends in a fault with the first.
abbrev pub first_faults : NodeInfo → List (ℕ × ℕ) → LoopResult
first_faults info [] = went_on (record { handles = []; served = [] })
first_faults info (pair ∷ pairs) =
    faulted (record { handles = pair ∷ []; served = libuv_client_data info pair ∷ [] })

module _ {R : Type 0} (call : R → ClientData → RoutineEnd) (routine : R) (info : NodeInfo)
    (faults : (pair : ℕ × ℕ)
      → call routine (libuv_client_data info pair) ≡ undefined_behaviour) where
  run_loop-first_faults :
      (incomings : List Incoming)
      → run_loop call (some routine) info incomings (record { handles = []; served = [] })
        ≡ first_faults info (accepted incomings)
  unfolding run_loop on_new_connection libuv_client_thread_proc
  run_loop-first_faults [] = refl
  run_loop-first_faults (incoming ∷ later) = elim (Bool-cases incoming.status_ok) [
    | inr bad ↦ rw (bad, run_loop, on_new_connection) (run_loop-first_faults later)
    | inl fine ↦ elim (Bool-cases incoming.accepts) [
      | inr refused ↦ rw (fine, refused, run_loop, on_new_connection) (run_loop-first_faults later)
      | inl here ↦ ground (arith, fine, here, faults incoming.pair)
    ]
  ]

-- The listener thread of an instance whose routine is ThreadHandler of LibuvProxySocket, with a handler and
-- a target that can be connected to: the first connection that libuv accepts ends in a fault inside the
-- event loop, as it comes without a client socket, and no later one is served; connections that fail
-- or are not accepted are passed over.
pub libuv_listen_thread_proc-faults :
    {R X : Type 0} (c : LibuvServerSocket R) (routine : R) (incomings : List Incoming)
    (handler : CProxyHandler X) (service : ResolvedService) (connects : Text → ℕ → Bool) (x : X)
    (rounds : ClientData → List Round)
    → c.info.ptr_to_instance ≢ 0
    → c.thread_routine ≡ some routine
    → connects service.ipaddress service.port ≡ true
    → libuv_listen_thread_proc
        (λ r client. libuv_proxy_thread (some handler) service connects x client (rounds client))
        c
        true
        incomings
      ≡ looping (first_faults c.info (accepted incomings))
unfolding libuv_listen_thread_proc libuv_proxy_thread libuv_client_data
libuv_listen_thread_proc-faults {R = R} c routine incomings handler service connects x rounds h set
      reaches =
    rw (there, set)
      (ap looping (
        run_loop-first_faults
          (λ (r : R) client.
            libuv_proxy_thread (some handler) service connects x client (rounds client))
          routine c.info (λ pair. rw (reaches, libuv_proxy_thread, libuv_thread_handler))
          incomings))
  where
    there : (c.info.ptr_to_instance == 0) ≡ false
    there = ground arith
