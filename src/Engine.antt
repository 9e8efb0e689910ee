-- ===== src/Engine.antt =====
-- The engine as a whole: a proxy socket is started (src/interface/CProxySocket.h), its listener hands each
-- accepted client to the thread routine (src/socket/CServerSocket.cpp), and the routine relays between
-- the client and a target (src/interface/CProxySocket.cpp), here on the sockets themselves.
pub mod Serving
pub mod Descriptors
mod Examples
use asabru_engine.Common.{ℕ, Option, none, some, List, [], ◌∷◌, ◌++◌, Checked, ok, fault, ◌>>=◌}
use asabru_engine.Net.Receive.{Event}
use asabru_engine.Net.Select.{Ready}
use asabru_engine.Proxy.{Text, Attempt, done, thrown, CProxyHandler, ResolvedService, start_state}
use asabru_engine.Proxy.Setup.{CProxySocket, Routine, relay_thread, pipeline}
use asabru_engine.Proxy.Sockets.{LoopEnd, socket_loop}
use asabru_engine.Client.{Network, new_client_socket}
use asabru_engine.Server.{ClientData}
use asabru_engine.Server.Tasks.{run_all}

-- What the thread of one client meets: the load balancer's choice among its servers, the network, the
-- descriptor that the kernel has for the target socket, the answers of `select`, and the scripts of the
-- two sockets.
pub record Surroundings : Type 0 where
  pub request_server : List ResolvedService → ResolvedService
  pub network : Network
  pub descriptor : Option ℕ
  pub selects : List Ready
  pub from_client : List Event
  pub from_target : List Event

pub data ClientEnd (X : Type 0) : Type 0 where
  no_handler connect_threw : ClientEnd X
  relayed : LoopEnd X → ClientEnd X

-- An exception of CClientSocket's constructor leaves the routine.
unfoldable pub ended :
    {X : Type 0}
    → Checked (ClientEnd X)
    → List (Checked (ClientEnd X))
    → Attempt (Unit {0}) × List (Checked (ClientEnd X))
ended (ok connect_threw) ends = (thrown, ends ++ (ok connect_threw ∷ []))
ended fault ends = (done tt, ends ++ (fault ∷ []))
ended (ok no_handler) ends = (done tt, ends ++ (ok no_handler ∷ []))
ended (ok (relayed e)) ends = (done tt, ends ++ (ok (relayed e) ∷ []))

-- The loop on the two sockets; `none` is a null pointer.
unfoldable pub relay_client :
    {X : Type 0} → X → CProxyHandler X → Option ℕ → Option ℕ → Surroundings → Checked (ClientEnd X)
unfolding socket_loop
relay_client x handler none target a = fault
relay_client x handler (some fd) none a = fault
relay_client x handler (some fd) (some t) a =
    ok (relayed (socket_loop handler fd t a.selects a.from_client a.from_target (start_state x)))

module _ {X P : Type 0} (around : ClientData → Surroundings) (x : X) where
  -- CProxySocket::ThreadHandler. The client's socket is used first when the target is connected.
  unfoldable pub proxy_thread :
      CProxySocket (CProxyHandler X) P → ClientData → Checked (ClientEnd X)
  unfolding relay_client new_client_socket
  proxy_thread p client = elim p.m_handler [
    | none ↦ ok no_handler
    | some handler ↦
        let a = around client in
        let service = a.request_server p.load_balancer in
        new_client_socket a.network a.descriptor service.ipaddress service.port >>= λ made.
        elim made.0 [
          | thrown ↦ ok connect_threw
          | done target ↦ relay_client x handler client.client_socket target.s a
        ]
  ]

  -- A call of a routine, which tells how it ended. What a pipeline does is its own affair.
  unfoldable pub call_routine :
      (P → ClientData → Checked (ClientEnd X))
      → CProxySocket (CProxyHandler X) P
      → Routine P
      → ClientData
      → List (Checked (ClientEnd X))
      → Attempt (Unit {0}) × List (Checked (ClientEnd X))
  unfolding proxy_thread ended
  call_routine pipelines p relay_thread client ends = ended (proxy_thread p client) ends
  call_routine pipelines p (pipeline f) client ends = ended (pipelines f client) ends

  -- The tasks of the thread pool.
  unfoldable pub run_tasks :
      (P → ClientData → Checked (ClientEnd X))
      → CProxySocket (CProxyHandler X) P
      → Routine P
      → List ClientData
      → List (Checked (ClientEnd X))
      → List (Checked (ClientEnd X))
  unfolding call_routine run_all
  run_tasks pipelines p routine clients ends =
      run_all (call_routine pipelines p) routine clients ends
