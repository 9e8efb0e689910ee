-- ===== src/Tls/Examples.antt =====
-- A server's and a client's constructor, and reads that fail in the middle.
use asabru_engine.Common.{ℕ, ◌≡◌, ◌⊎◌, refl, true, false, [], ◌∷◌, none, some, ok, fault}
use asabru_engine.Proxy.{done}
use asabru_engine.Tls.{TlsAnswers, finished}
use asabru_engine.Common.{map, arith}
use asabru_engine.Net.Blocking.{recv_blocking}
use asabru_engine.Tls.Reading.{got, failure, want_read, zero_return, as_recv}
use asabru_engine.Tls.Blocking.{as_filling, ssl_recv_blocking, ssl_recv_blocking-recv_blocking}
use asabru_engine.Tls.Life.{reads, live_out, fate, session, ended_as, live_out-fate}
use asabru_engine.Tls.Client.{
  SslNetwork, resolve, new_client_ssl_socket, client_object, new_client_ssl_socket_cases,
}

abbrev some_answers : TlsAnswers
some_answers = record {
  new_context = true;
  verify_cert = none;
  default_verify_paths = true;
  min_proto_version = true;
  cert_file_path = true;
  key_file_path = false;
  use_certificate = true;
  use_private_key = true;
  new_session = true;
  accepts = true;
}

abbrev some_network : SslNetwork
some_network = record {
  isalpha = λ b. false;
  gethostbyname = λ host. none;
  gethostbyaddr = λ host. some 1;
  connects = λ a port. true;
  new_session = true;
  sets_tlsext_host_name = λ name. true;
  sets_host = λ name. true;
  ssl_connects = true;
}

new_client_ssl_socket_cases_example :
    ((a : ℕ) × (resolve some_network (49 ∷ []) ≡ done (some a))
      × (some_network.connects a 9440 ≡ true)
      × (some_network.ssl_connects ≡ true)
      × (new_client_ssl_socket some_network some_answers 5 (49 ∷ []) 9440
          ≡ ok (finished (client_object some_answers 5))))
    ⊎ (new_client_ssl_socket some_network some_answers 5 (49 ∷ []) 9440 ≡ fault)
new_client_ssl_socket_cases_example =
    new_client_ssl_socket_cases some_network some_answers 5 (49 ∷ []) 9440 refl

ssl_recv_blocking-recv_blocking_example :
    let reads = got (1 ∷ 2 ∷ []) ∷ failure want_read ∷ got (3 ∷ []) ∷ got (4 ∷ []) ∷ [] in
    recv_blocking (map as_recv reads) 3 ≡ as_filling (ssl_recv_blocking reads 3)
ssl_recv_blocking-recv_blocking_example =
    ssl_recv_blocking-recv_blocking
      (got (1 ∷ 2 ∷ []) ∷ failure want_read ∷ got (3 ∷ []) ∷ got (4 ∷ []) ∷ []) 3 (omega arith)

live_out-fate_example :
    let uses =
      reads (
        record { read = got (1 ∷ []); pending = 1 }
        ∷ record { read = got (2 ∷ []); pending = 0 }
        ∷ [])
      ∷ reads (record { read = failure want_read; pending = 0 } ∷ [])
      ∷ reads (record { read = failure zero_return; pending = 0 } ∷ [])
      ∷ [] in
    live_out uses (session 5 none) ≡ ended_as 5 none (fate uses)
live_out-fate_example = live_out-fate 5 none (
    reads (
      record { read = got (1 ∷ []); pending = 1 }
      ∷ record { read = got (2 ∷ []); pending = 0 }
      ∷ [])
    ∷ reads (record { read = failure want_read; pending = 0 } ∷ [])
    ∷ reads (record { read = failure zero_return; pending = 0 } ∷ [])
    ∷ [])
