-- ===== src/Protocol/Serving.antt =====
-- A protocol socket that is started (src/interface/CProtocolSocket.h), its listener and its tasks
-- (src/socket/CServerSocket.cpp), and the threads that answer the clients
-- (src/interface/CProtocolSocket.cpp).
use asabru_engine.Common.{
  ℕ, ◌≡◌, ◌≢◌, ap, ◌∙◌, Checked, true, Option, none, some, List, [], ◌∷◌, ◌++◌, map, ok, fault, All,
  arith,
}
use asabru_engine.Proxy.{Text, Attempt, done, thrown}
use asabru_engine.Protocol.{
  Reading, read_fails, CProtocolHandler, ProtocolEnd, no_handler, read_failed, handler_threw,
  answering, protocol_thread_handler, CProtocolSocket, protocol_start,
}
use asabru_engine.Protocol.Responding.{
  FitsRequest, answered, requests, protocol_thread_handler-requests,
}
use asabru_engine.Server.{
  ClientData, CServerSocket, listening, open_socket, listen_thread_proc, accepting,
}
use asabru_engine.Server.Tasks.{run_all, run_all-ends}
use asabru_engine.Server.Listener.{FitsRemote, connections, task, open_socket-connections}

-- An exception of the handler leaves the routine.
unfoldable pub protocol_ended :
    {X : Type 0}
    → Checked (ProtocolEnd X)
    → List (Checked (ProtocolEnd X))
    → Attempt (Unit {0}) × List (Checked (ProtocolEnd X))
protocol_ended fault ends = (done tt, ends ++ (fault ∷ []))
protocol_ended (ok no_handler) ends = (done tt, ends ++ (ok no_handler ∷ []))
protocol_ended (ok (read_failed s)) ends = (done tt, ends ++ (ok (read_failed s) ∷ []))
protocol_ended (ok (handler_threw s)) ends = (thrown, ends ++ (ok (handler_threw s) ∷ []))
protocol_ended (ok (answering s)) ends = (done tt, ends ++ (ok (answering s) ∷ []))

-- `reads` is what comes from each client; each thread has its own execution context, `x` at first.
module _ {X P : Type 0} (reads : ClientData → List Reading) (x : X)
    (pipelines : P → ClientData → Checked (ProtocolEnd X)) where
  -- A call of the routine; `none` is ThreadHandler.
  unfoldable pub call_protocol_routine :
      CProtocolSocket (CProtocolHandler X) P
      → Option P
      → ClientData
      → List (Checked (ProtocolEnd X))
      → Attempt (Unit {0}) × List (Checked (ProtocolEnd X))
  unfolding protocol_thread_handler protocol_ended
  call_protocol_routine p none client ends =
      protocol_ended (protocol_thread_handler p.m_handler x (reads client)) ends
  call_protocol_routine p (some f) client ends = protocol_ended (pipelines f client) ends

  unfoldable pub run_protocol_tasks :
      CProtocolSocket (CProtocolHandler X) P
      → Option P
      → List ClientData
      → List (Checked (ProtocolEnd X))
      → List (Checked (ProtocolEnd X))
  unfolding call_protocol_routine run_all
  run_protocol_tasks p routine clients ends = run_all (call_protocol_routine p) routine clients ends

-- What the client of a descriptor asks before a read of it fails.
abbrev pub Asks :
    (ClientData → List Reading)
    → (ℕ → ClientData)
    → (ℕ → List Text)
    → (ℕ → List Reading)
    → ℕ
    → Type 0
Asks reads make asked later fd =
    (reads (make fd) ≡ requests (asked fd) (read_fails ∷ later fd)) × All FitsRequest (asked fd)

-- All the responses to the requests of a client, and then a read that fails.
abbrev pub responses :
    {X : Type 0} → (Text → ℕ → X → Text) → (Text → ℕ → X → X) → X → List Text → ProtocolEnd X
responses respond change x asked =
    let (x', texts) = answered respond change x asked in
    read_failed (record { context = x'; sent = texts })

module _ {X P : Type 0} (reads : ClientData → List Reading) (x : X)
    (pipelines : P → ClientData → Checked (ProtocolEnd X)) (handler : CProtocolHandler X)
    (respond : Text → ℕ → X → Text) (change : Text → ℕ → X → X)
    (responds : (t : Text) (n : ℕ) (y : X)
      → handler.handle_data t n y ≡ (done (respond t n y), change t n y)) where
  call_protocol_routine-answers :
      (p : CProtocolSocket (CProtocolHandler X) P) (client : ClientData) (asked : List Text)
      (later : List Reading) (ends : List (Checked (ProtocolEnd X)))
      → p.m_handler ≡ some handler
      → reads client ≡ requests asked (read_fails ∷ later)
      → All FitsRequest asked
      → call_protocol_routine reads x pipelines p none client ends
        ≡ (done tt, ends ++ (ok (responses respond change x asked) ∷ []))
  unfolding call_protocol_routine protocol_ended
  call_protocol_routine-answers p client asked later ends has e fit =
      rw (has, e)
        (ap (λ r. protocol_ended r ends)
          (protocol_thread_handler-requests handler respond change responds x asked later fit))

  threads-answer :
      (p : CProtocolSocket (CProtocolHandler X) P) (make : ℕ → ClientData) (asked : ℕ → List Text)
      (later : ℕ → List Reading) (fds : List ℕ)
      → p.m_handler ≡ some handler
      → All (Asks reads make asked later) fds
      → All
          (λ fd.
            (es : List (Checked (ProtocolEnd X)))
            → call_protocol_routine reads x pipelines p none (make fd) es
              ≡ (done tt, es ++ (ok (responses respond change x (asked fd)) ∷ [])))
          fds
  threads-answer p make asked later [] has asks = tt
  threads-answer p make asked later (fd ∷ fds) has ((e, fit), asks) = (
    λ es. call_protocol_routine-answers p (make fd) (asked fd) (later fd) es has e fit,
    threads-answer p make asked later fds has asks,
  )

  -- A protocol socket whose routine was not replaced, with a handler that answers every request and never
  -- throws: started and opened on a port that can be listened on, on a server whose own address takes
  -- fewer than 32 bytes, it makes one task for each connection that it accepts. If the reads of each client
  -- are requests of fewer than 32000 bytes and then one that fails, the thread of its task hands SendBytes
  -- one response to each request, in their order, and then ends; the context that a request leaves is that
  -- of the client's next. The handler sees a request only up to its first zero byte, though with the
  -- length of the whole.
  pub serve-answers :
      (p : CProtocolSocket (CProtocolHandler X) P) (c : CServerSocket (Option P)) (this : ℕ)
      (fds : List ℕ) (asked : ℕ → List Text) (later : ℕ → List Reading)
      → p.m_handler ≡ some handler
      → p.thread_routine_override ≡ none
      → this ≢ 0
      → FitsRemote c.local_address
      → All (Asks reads (task this (protocol_start p).0 c.local_address) asked later) fds
      → let tasks = map (task this (protocol_start p).0 c.local_address) fds in
        (c' : CServerSocket (Option P)) × (open_socket this
            (record { binds = true; listens = true })
            (protocol_start p).0
            (protocol_start p).1
            c
          ≡ ok (listening true c'))
        × (listen_thread_proc c' (connections fds []) ≡ accepting tasks)
        × (c'.thread_routine ≡ some none)
        × (run_protocol_tasks reads x pipelines p none tasks []
            ≡ map (λ fd. ok (responses respond change x (asked fd))) fds)
  unfolding protocol_start run_protocol_tasks
  serve-answers p c this fds asked later has answers there small asks =
      let (c', opened, kept, tasks, _, _) =
        open_socket-connections this (protocol_start p).0 (protocol_start p).1 c fds [] there
          (omega arith) small in
      (
        c',
        opened,
        tasks,
        kept ∙ ap some answers,
        run_all-ends (call_protocol_routine reads x pipelines p) none
            (task this (protocol_start p).0 c.local_address)
            (λ fd. ok (responses respond change x (asked fd))) fds []
            (threads-answer p (task this (protocol_start p).0 c.local_address) asked later fds has
              asks),
      )
