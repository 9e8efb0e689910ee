-- ===== src/Engine/Examples.antt =====
-- One client, whose request comes in two pieces and is answered before it closes.
use asabru_engine.Common.{
  ℕ, ◌+◌, ◌≡◌, refl, leb, ◌&&◌, true, some, none, List, [], ◌∷◌, map, ok, arith, All, Checked,
}
use asabru_engine.Common.{ltb, if◌then◌else◌}
use asabru_engine.Net.Select.{ready, contains, fds_after, readable}
use asabru_engine.Net.Descriptors.{Table, change}
use asabru_engine.Proxy.{Text, done, CProxyHandler, ResolvedService}
use asabru_engine.Proxy.Setup.{CProxySocket, Routine, relay_thread, start}
use asabru_engine.Proxy.Sockets.{Turn, IsTurn, quiet, closing, sends, client_script, target_script}
use asabru_engine.Client.{Network, is_name}
use asabru_engine.Server.{
  ClientData, CServerSocket, listening, open_socket, listen_thread_proc, accepting,
}
use asabru_engine.Server.Listener.{connections, task}
use asabru_engine.Engine.{Surroundings, ClientEnd, relayed, no_handler, run_tasks}
use asabru_engine.Proxy.Relay.{Transform}
use asabru_engine.Engine.Serving.{IsServed, forwarded, serve-forwards}

abbrev mark : Text → Text
mark t = 33 ∷ t

abbrev marking : CProxyHandler ℕ
marking = record {
  handle_upstream_data = λ t x. (done (x ∷ mark t), x + 1);
  handle_downstream_data = λ t x. (done t, x);
}

abbrev marks : Transform ℕ
marks = record {
  up = λ t x. x ∷ mark t;
  up_context = λ t x. x + 1;
  down = λ t x. t;
  down_context = λ t x. x;
}

abbrev some_turns : List Turn
some_turns =
    record {
      answer = ready (5 ∷ []);
      of_client = sends (1 ∷ 2 ∷ []) ((3 ∷ []) ∷ []);
      of_target = quiet;
    }
    ∷ record { answer = ready (6 ∷ []); of_client = quiet; of_target = sends (7 ∷ []) [] }
    ∷ record { answer = ready (5 ∷ []); of_client = closing; of_target = quiet }
    ∷ []

some_turns-IsTurn : All (IsTurn 5 6) some_turns
unfolding readable contains fds_after
some_turns-IsTurn = (
  (
    omega arith,
    omega arith,
    refl,
    refl,
    ((omega arith, omega arith), ((omega arith, omega arith), tt)),
    tt,
  ),
  (
    (omega arith, omega arith, refl, refl, tt, ((omega arith, omega arith), tt)),
    ((omega arith, omega arith, refl, refl, tt, tt), tt),
  ),
)

abbrev some_service : ResolvedService
some_service = record {
  ipaddress = 49 ∷ [];
  port = 9000;
  r_w = 0;
  alias = [];
  source_hostname = [];
}

abbrev some_network : Network
some_network = record {
  isalpha = λ b. leb 65 b && leb b 122;
  gethostbyname = λ host. none;
  create_hostent = λ host. done (some 2);
  connects = λ a port. true;
}

abbrev first_of : List ResolvedService → ResolvedService
first_of [] = some_service
first_of (s ∷ services) = s

abbrev around : ClientData → Surroundings
around client = record {
  request_server = first_of;
  network = some_network;
  descriptor = some 6;
  selects = map (λ t. t.answer) some_turns;
  from_client = client_script some_turns [];
  from_target = target_script some_turns [];
}

abbrev some_proxy : CProxySocket (CProxyHandler ℕ) ℕ
some_proxy = record {
  m_handler = some marking;
  thread_routine_override = relay_thread;
  services = some_service ∷ [];
  load_balancer = [];
  hostname_map = [];
}

abbrev some_server : CServerSocket (Routine ℕ)
some_server = record {
  s = some 4;
  m_protocol_port = 9000;
  max_connections = 10;
  info = record { node_info = []; mode = 0; ptr_to_instance = 0 };
  local_address = 48 ∷ [];
  thread_routine = none;
}

client-IsServed : IsServed (around (task 64 [] (48 ∷ []) 5)) (some_service ∷ []) 5 some_turns
unfolding is_name
client-IsServed = record {
  target = 6;
  host = 2;
  client_later = [];
  target_later = [];
  has_descriptor = refl;
  fits = omega arith;
  resolves = (refl, refl);
  connects = refl;
  answers = refl;
  client_sends = refl;
  target_sends = refl;
  each_turn = some_turns-IsTurn;
}

abbrev no_pipelines : ℕ → ClientData → Checked (ClientEnd ℕ)
no_pipelines f client = ok no_handler

abbrev some_clients : List ℕ
some_clients = 5 ∷ []

serve-forwards_example :
    let tasks = map (task 64 [] (48 ∷ [])) some_clients in
    (c' : CServerSocket (Routine ℕ)) × (open_socket 64
        (record { binds = true; listens = true })
        []
        (start some_proxy).1
        some_server
      ≡ ok (listening true c'))
    × (listen_thread_proc c' (connections some_clients []) ≡ accepting tasks)
    × (c'.thread_routine ≡ some relay_thread)
    × (run_tasks around 0 no_pipelines (start some_proxy).0 relay_thread tasks []
        ≡ map (λ fd. ok (relayed (forwarded marks 0 some_turns))) some_clients)
serve-forwards_example =
    serve-forwards around 0 marking marks (λ t y. refl, λ t y. refl) no_pipelines some_proxy
      some_server 64 [] some_clients (λ fd. some_turns) refl refl (λ e. omega (arith, e))
      (omega arith) (omega arith) (client-IsServed, tt)

-- A process that has all numbers below FD_SETSIZE in use serves one client.
abbrev full_table : Table
full_table i = if ltb i 1024 then some 7 else none

abbrev accepted_table : Table
accepted_table = change 1024 (some 8) full_table

abbrev connected_table : Table
connected_table = change 1025 (some 9) accepted_table
