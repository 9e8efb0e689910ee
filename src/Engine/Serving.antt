-- ===== src/Engine/Serving.antt =====
-- From Start to the bytes that a client and its target get.
use asabru_engine.Common.{
  ℕ, ◌<◌, ◌≡◌, ◌≢◌, refl, ap, ◌∙◌, sym, Checked, true, some, List, [], ◌∷◌, ◌++◌, map, length, ok,
  All, until_zero,
}
use mathlib.Core.Path.{subst}
use asabru_engine.Net.Receive.{Event}
use asabru_engine.Proxy.{Text, done, CProxyHandler, ResolvedService, start_state}
use asabru_engine.Proxy.Relay.{until_end, Transform, Answers, answers}
use asabru_engine.Proxy.Setup.{CProxySocket, Routine, relay_thread, start, start_lem}
use asabru_engine.Proxy.Sockets.{
  Turn, IsTurn, round_of, client_script, target_script, loop_end, LoopEnd, socket_loop-forwards,
}
use asabru_engine.Client.{server_name_room}
use asabru_engine.Client.Connecting.{Resolves, new_client_socket-connects}
use asabru_engine.Server.{
  ClientData, CServerSocket, listening, open_socket, listen_thread_proc, accepting, node_info_room,
}
use asabru_engine.Server.Tasks.{run_all-ends}
use asabru_engine.Server.Listener.{FitsRemote, connections, task, open_socket-connections}
use asabru_engine.Engine.{
  Surroundings, ClientEnd, relayed, ended, relay_client, proxy_thread, call_routine, run_tasks,
}

-- Around a thread: the chosen server's address is dotted and can be connected to, the descriptors fit,
-- and what the two peers do in the turns of the loop.
pub record IsServed (a : Surroundings) (servers : List ResolvedService) (client : ℕ)
    (turns : List Turn) : Type 0 where
  pub target : ℕ
  pub host : ℕ
  pub client_later : List Event
  pub target_later : List Event
  pub has_descriptor : a.descriptor ≡ some target
  pub fits : length (a.request_server servers).ipaddress < server_name_room
  pub resolves : Resolves a.network (a.request_server servers).ipaddress host
  pub connects : a.network.connects host (a.request_server servers).port ≡ true
  pub answers : a.selects ≡ map (λ t. t.answer) turns
  pub client_sends : a.from_client ≡ client_script turns client_later
  pub target_sends : a.from_target ≡ target_script turns target_later
  pub each_turn : All (IsTurn client target) turns

-- What a client's relay has sent, and whether it is over.
abbrev pub forwarded : {X : Type 0} → Transform X → X → List Turn → LoopEnd X
forwarded f x turns =
    let taken = until_end (map round_of turns) in
    let answered = answers f x taken.0 in
    loop_end (
      taken.1,
      record { context = answered.2; to_target = answered.0; to_client = answered.1 },
      taken.2,
    )

module _ {X : Type 0} (x : X) (handler : CProxyHandler X) (f : Transform X)
    (ups : Answers handler f) where
  relay_client_lem :
      (a : Surroundings) (servers : List ResolvedService) (fd : ℕ) (turns : List Turn)
      → (h : IsServed a servers fd turns)
      → relay_client x handler (some fd) (some h.target) a ≡ ok (relayed (forwarded f x turns))
  unfolding relay_client
  relay_client_lem a servers fd turns h =
      rw (h.answers, h.client_sends, h.target_sends)
        (ap (λ e. ok (relayed e))
          (socket_loop-forwards handler f ups fd h.target turns h.client_later h.target_later
            (start_state x) h.each_turn))

module _ {X P : Type 0} (around : ClientData → Surroundings) (x : X) (handler : CProxyHandler X)
    (f : Transform X) (ups : Answers handler f) where
  proxy_thread-forwards :
      (p : CProxySocket (CProxyHandler X) P) (client : ClientData) (fd : ℕ) (turns : List Turn)
      → p.m_handler ≡ some handler
      → client.client_socket ≡ some fd
      → IsServed (around client) p.load_balancer fd turns
      → proxy_thread around x p client ≡ ok (relayed (forwarded f x turns))
  unfolding proxy_thread
  proxy_thread-forwards p client fd turns has has_client h =
      let a = around client in
      let service = a.request_server p.load_balancer in
      rw (has, proxy_thread)
        (rw h.has_descriptor (
          rw
            (new_client_socket-connects a.network h.target service.port h.host service.ipaddress
              h.fits h.resolves h.connects)
            (ap (λ c. relay_client x handler c (some h.target) a) has_client
              ∙ relay_client_lem x handler f ups a p.load_balancer fd turns h)))

  module _ (pipelines : P → ClientData → Checked (ClientEnd X)) where
    call_routine-relayed :
        (p : CProxySocket (CProxyHandler X) P) (client : ClientData) (r : LoopEnd X)
        (ends : List (Checked (ClientEnd X)))
        → proxy_thread around x p client ≡ ok (relayed r)
        → call_routine around x pipelines p relay_thread client ends
          ≡ (done tt, ends ++ (ok (relayed r) ∷ []))
    unfolding call_routine ended
    call_routine-relayed p client r ends e = ap (λ t. ended t ends) e

    threads-forward :
        (p : CProxySocket (CProxyHandler X) P) (make : ℕ → ClientData) (turns : ℕ → List Turn)
        (fds : List ℕ)
        → p.m_handler ≡ some handler
        → ((fd : ℕ) → (make fd).client_socket ≡ some fd)
        → All (λ fd. IsServed (around (make fd)) p.load_balancer fd (turns fd)) fds
        → All
            (λ fd.
              (es : List (Checked (ClientEnd X)))
              → call_routine around x pipelines p relay_thread (make fd) es
                ≡ (done tt, es ++ (ok (relayed (forwarded f x (turns fd))) ∷ [])))
            fds
    threads-forward p make turns [] has own served = tt
    threads-forward p make turns (fd ∷ fds) has own (h, served) = (
      λ es.
          call_routine-relayed p (make fd) (forwarded f x (turns fd)) es
            (proxy_thread-forwards p (make fd) fd (turns fd) has (own fd) h),
      threads-forward p make turns fds has own served,
    )

    run_tasks-forwards :
        (p : CProxySocket (CProxyHandler X) P) (make : ℕ → ClientData) (turns : ℕ → List Turn)
        (fds : List ℕ) (ends : List (Checked (ClientEnd X)))
        → p.m_handler ≡ some handler
        → ((fd : ℕ) → (make fd).client_socket ≡ some fd)
        → All (λ fd. IsServed (around (make fd)) p.load_balancer fd (turns fd)) fds
        → run_tasks around x pipelines p relay_thread (map make fds) ends
          ≡ ends ++ map (λ fd. ok (relayed (forwarded f x (turns fd)))) fds
    unfolding run_tasks
    run_tasks-forwards p make turns fds ends has own served =
        run_all-ends (call_routine around x pipelines p) relay_thread make
          (λ fd. ok (relayed (forwarded f x (turns fd)))) fds ends
          (threads-forward p make turns fds has own served)

    -- The whole engine, for a handler that answers every text and never throws, and a proxy socket whose
    -- routine was not replaced. Started with its configured servers and opened on a port that can be
    -- listened on, under a name shorter than 255 bytes and on an address of fewer than 32, it makes one
    -- task for each connection that it accepts. If for each the chosen server's address is dotted, resolves
    -- and can be connected to, the two descriptors are below FD_SETSIZE, the `select` answers name the
    -- sides that do something, and the peers send messages in pieces as ReceiveBytes takes them, close or
    -- fail, then the thread of its task hands SendBytes for each side the answers to what the other sent,
    -- in their order, up to the turn in which a side closes or fails, and leaves its loop there.
    pub serve-forwards :
        (p : CProxySocket (CProxyHandler X) P) (c : CServerSocket (Routine P)) (this : ℕ)
        (identifier : Text) (fds : List ℕ) (turns : ℕ → List Turn)
        → p.m_handler ≡ some handler
        → p.thread_routine_override ≡ relay_thread
        → this ≢ 0
        → length (until_zero identifier) < node_info_room
        → FitsRemote c.local_address
        → All
            (λ fd.
              IsServed (around (task this identifier c.local_address fd)) p.services fd (turns fd))
            fds
        → let tasks = map (task this identifier c.local_address) fds in
          (c' : CServerSocket (Routine P)) × (open_socket this
              (record { binds = true; listens = true })
              identifier
              (start p).1
              c
            ≡ ok (listening true c'))
          × (listen_thread_proc c' (connections fds []) ≡ accepting tasks)
          × (c'.thread_routine ≡ some relay_thread)
          × (run_tasks around x pipelines (start p).0 relay_thread tasks []
              ≡ map (λ fd. ok (relayed (forwarded f x (turns fd)))) fds)
    unfolding start
    serve-forwards p c this identifier fds turns has relays there short fits served =
        let (balancer, _, routine) = start_lem (λ a b. true) p [] in
        let (c', opened, kept, tasks, _, _) =
          open_socket-connections this identifier (start p).1 c fds [] there short fits in
        (
          c',
          opened,
          tasks,
          kept ∙ ap some (routine ∙ relays),
          run_tasks-forwards (start p).0 (task this identifier c.local_address) turns fds [] has
              (λ fd. refl)
              (subst
                (λ servers.
                  All
                    (λ fd.
                      IsServed (around (task this identifier c.local_address fd)) servers fd
                        (turns fd))
                    fds)
                (sym balancer) served),
        )
