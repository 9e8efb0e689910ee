-- ===== src/Protocol/Examples.antt =====
-- A protocol socket with a handler that counts and echoes requests, and two clients; a few registrations of HTTP handlers.
use asabru_engine.Common.{
  or_else, ℕ, ◌≡◌, refl, ◌∷◌, map, length, some, none, true, Option, Checked, ok, arith,
}
use asabru_engine.Common.{◌+◌, ◌==◌, List, [], Bool, ◌∙◌}
use asabru_engine.Proxy.{done, Text}
use asabru_engine.Protocol.Registry.{
  IsKey, Handlers, find_handler, register_paths, first_registered, find_handler-register_paths,
}
use asabru_engine.Protocol.{
  CProtocolHandler, CProtocolSocket, ProtocolEnd, Reading, read_fails, no_handler, protocol_start,
}
use asabru_engine.Protocol.Responding.{requests}
use asabru_engine.Protocol.Serving.{run_protocol_tasks, responses, serve-answers}
use asabru_engine.Server.{
  ClientData, CServerSocket, listening, open_socket, listen_thread_proc, accepting,
}
use asabru_engine.Server.Listener.{connections, task}

abbrev counting : CProtocolHandler ℕ
counting = record { handle_data = λ t n x. (done (x ∷ n ∷ t), x + 1) }

abbrev some_protocol_socket : CProtocolSocket (CProtocolHandler ℕ) ℕ
some_protocol_socket = record { m_handler = some counting; thread_routine_override = none }

abbrev some_protocol_server : CServerSocket (Option ℕ)
some_protocol_server = record {
  s = some 4;
  m_protocol_port = 9000;
  max_connections = 10;
  info = record { node_info = []; mode = 0; ptr_to_instance = 0 };
  local_address = 48 ∷ [];
  thread_routine = none;
}

-- Each client asks for its own descriptor, and then for two more bytes with a zero in front of them.
abbrev some_requests : ℕ → List Text
some_requests fd = (fd ∷ []) ∷ (1 ∷ 0 ∷ 2 ∷ []) ∷ []

abbrev some_reads : ClientData → List Reading
some_reads client = elim client.client_socket [
  | none ↦ []
  | some fd ↦ requests (some_requests fd) (read_fails ∷ [])
]

abbrev no_protocol_pipelines : ℕ → ClientData → Checked (ProtocolEnd ℕ)
no_protocol_pipelines f client = ok no_handler

abbrev two_clients : List ℕ
two_clients = 5 ∷ 6 ∷ []

serve-answers_example :
    let tasks = map (task 64 (protocol_start some_protocol_socket).0 (48 ∷ [])) two_clients in
    (c' : CServerSocket (Option ℕ)) × (open_socket 64
        (record { binds = true; listens = true })
        (protocol_start some_protocol_socket).0
        (protocol_start some_protocol_socket).1
        some_protocol_server
      ≡ ok (listening true c'))
    × (listen_thread_proc c' (connections two_clients []) ≡ accepting tasks)
    × (c'.thread_routine ≡ some none)
    × (run_protocol_tasks some_reads 0 no_protocol_pipelines some_protocol_socket none tasks []
        ≡ map
            (λ fd. ok (responses (λ t n x. x ∷ n ∷ t) (λ t n x. x + 1) 0 (some_requests fd)))
            two_clients)
serve-answers_example =
    serve-answers some_reads 0 no_protocol_pipelines counting (λ t n x. x ∷ n ∷ t) (λ t n x. x + 1)
      (λ t n x. refl) some_protocol_socket some_protocol_server 64 two_clients some_requests
      (λ fd. []) refl refl (λ e. omega (arith, e)) (omega arith)
      ((refl, (omega arith, (omega arith, tt))), ((refl, (omega arith, (omega arith, tt))), tt))

abbrev same_number : ℕ → ℕ → Bool
same_number m n = m == n

same_number-IsKey : IsKey same_number
same_number-IsKey = (λ x. ground arith, λ x y z e. ground arith)

abbrev some_registrations : List (Text × ℕ × ℕ)
some_registrations = (47 ∷ [], 1, 10) ∷ (47 ∷ [], 1, 11) ∷ (47 ∷ 97 ∷ [], 2, 12) ∷ []

abbrev there_before : Handlers ℕ ℕ ℕ
there_before = (2, (1, 20) ∷ []) ∷ []

find_handler-register_paths_example :
    find_handler same_number same_number 1 1
      (register_paths same_number same_number length some_registrations there_before)
    ≡ or_else
        (find_handler same_number same_number 1 1 there_before)
        (first_registered same_number same_number length some_registrations 1 1)
find_handler-register_paths_example =
    find_handler-register_paths same_number same_number same_number-IsKey same_number-IsKey length
      some_registrations there_before 1 1

-- The second registration has no effect.
first_stays :
    find_handler same_number same_number 1 1
      (register_paths same_number same_number length some_registrations there_before)
    ≡ some 10
first_stays = find_handler-register_paths_example ∙ unfold find_handler in refl
