-- ===== src/Server/Examples.antt =====
-- The listeners on a few connections.
use asabru_engine.Common.{ℕ, ◌≡◌, refl, true, false, List, [], ◌∷◌, none, some, arith}
use asabru_engine.Proxy.{done, CProxyHandler, ResolvedService}
use asabru_engine.Server.{CServerSocket}
use asabru_engine.Server.Libuv.{
  LibuvServerSocket, Incoming, libuv_listen_thread_proc, looping, first_faults, accepted,
  libuv_proxy_thread, libuv_listen_thread_proc-faults,
}

abbrev some_server : CServerSocket ℕ
some_server = record {
  s = some 5;
  m_protocol_port = 9000;
  max_connections = 10;
  info = record { node_info = []; mode = 0; ptr_to_instance = 0 };
  local_address = 48 ∷ [];
  thread_routine = none;
}

abbrev echo : CProxyHandler ℕ
echo = record {
  handle_upstream_data = λ t x. (done t, x);
  handle_downstream_data = λ t x. (done t, x);
}

abbrev some_service : ResolvedService
some_service = record {
  ipaddress = 49 ∷ [];
  port = 9000;
  r_w = 0;
  alias = [];
  source_hostname = [];
}

abbrev some_libuv : LibuvServerSocket ℕ
some_libuv = record {
  m_protocol_port = 9000;
  max_connections = 10;
  info = record { node_info = []; mode = 1; ptr_to_instance = 64 };
  thread_routine = some 1;
}

abbrev some_calls : List Incoming
some_calls =
    record { status_ok = true; accepts = false; pair = (1, 2) }
    ∷ record { status_ok = true; accepts = true; pair = (3, 4) }
    ∷ record { status_ok = true; accepts = true; pair = (5, 6) }
    ∷ []

libuv_listen_thread_proc-faults_example :
    libuv_listen_thread_proc
      (λ (r : ℕ) client. libuv_proxy_thread (some echo) some_service (λ a p. true) 0 client [])
      some_libuv
      true
      some_calls
    ≡ looping (first_faults some_libuv.info (accepted some_calls))
libuv_listen_thread_proc-faults_example =
    libuv_listen_thread_proc-faults some_libuv 1 some_calls echo some_service (λ a p. true) 0
      (λ client. []) (λ e. omega (arith, e)) refl refl
