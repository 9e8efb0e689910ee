-- ===== src/Tcp/Examples.antt =====
-- A pool of TCP connections that cannot be connected to any more, and a factory at work.
use asabru_engine.Common.{
  ℕ, ◌+◌, ◌≤◌, ◌<◌, ◌≡◌, refl, Bool, true, false, List, [], ◌∷◌, Option, none, some, ok, fault,
  arith,
}
use asabru_engine.Proxy.{done}
use asabru_engine.Pool.{threw, ConnectionOps, ConnectionPool, get_connection, insert, size_idle}
use asabru_engine.Client.{Network, reconnect, connect, resolve, is_name}
use asabru_engine.Tcp.{
  TcpConnection, tcp_heart_beat, tcp_is_healthy, tcp_connect, create_pool, destroy_pool,
}
use asabru_engine.Tcp.Lending.{IsTcp, get_connection-lends_first}
use asabru_engine.Tcp.Lifetime.{create_pool-closes}
use asabru_engine.Tcp.Shutdown.{holds, times, destroy_pool-closes}
use asabru_engine.Pool.Owned.{Call, gets, beats, IsDistinct, run}
use asabru_engine.Pool.Weighed.{pool_total}
use asabru_engine.Client.Connecting.{Resolves}
use asabru_engine.Proxy.{Text}
use mathlib.Core.List.Perm

abbrev net : Bool → Network
net up = record {
  isalpha = λ b. false;
  gethostbyname = λ host. none;
  create_hostent = λ host. done (some 2);
  connects = λ a port. up;
}

abbrev fresh : TcpConnection → Option ℕ
fresh c = some 9

-- What stands for undefined behaviour here is of no account.
ops : ConnectionOps TcpConnection
ops = record {
  heart_beat = tcp_heart_beat;
  is_healthy = tcp_is_healthy;
  connect = λ c. elim (tcp_connect (net false) (fresh c) c) [ fault ↦ (threw, c) | ok r ↦ r ];
}

ops-IsTcp : IsTcp (net false) fresh ops
unfolding ops
ops-IsTcp = record {
  heart_beat_lem = λ c. refl;
  is_healthy_lem = λ c. refl;
  connect_lem = λ c r e. ground (arith, e);
}

abbrev at_socket : ℕ → List (Option ℕ) → TcpConnection
at_socket fd closes = record {
  connection_id = 0;
  client_socket =
      some (record { s = some fd; m_server_name = 49 ∷ []; m_server_port = 9000; closes = closes });
  connected = true;
}

abbrev some_pool : ConnectionPool TcpConnection
some_pool = record { idle = (8, at_socket 5 []) ∷ []; busy = [] }

reconnection_throws :
    tcp_connect (net false) (some 9) (at_socket 5 []) ≡ ok (threw, at_socket 9 (some 5 ∷ []))
unfolding tcp_connect reconnect connect resolve is_name
reconnection_throws = refl

get_connection-lends_first_example : get_connection ops (λ nodes. nodes) some_pool ≡ (
  record { m_pool = true; m_connection = 8 },
  record { idle = []; busy = insert (8, at_socket 9 (some 5 ∷ [])) [] },
)
get_connection-lends_first_example =
    get_connection-lends_first (net false) fresh ops ops-IsTcp (λ nodes. nodes) some_pool 8
      (at_socket 5 []) (at_socket 9 (some 5 ∷ [])) threw [] (λ e. cc) refl reconnection_throws

abbrev address : ℕ → ℕ
address k = 64 + k

resolves :
    (is_name (net true) (49 ∷ []) ≡ false) × ((net true).create_hostent (49 ∷ []) ≡ done (some 2))
unfolding is_name
resolves = (refl, refl)

all_resolve : (host : Text) → true ≡ true → (a : ℕ) × Resolves (net false) host a
unfolding is_name
all_resolve [] e = (2, (refl, refl))
all_resolve (b ∷ bs) e = (2, (refl, refl))

some_pool-IsDistinct : IsDistinct some_pool
some_pool-IsDistinct k = ground arith

destroy_pool-closes_example :
    pool_total (holds (λ host. true) 5) some_pool
    ≤ times 5 (
        destroy_pool
          (λ nodes. nodes)
          (run ops (λ nodes. nodes) (λ nodes. Perm.refl nodes) some_pool (gets ∷ beats ∷ [])))
destroy_pool-closes_example =
    destroy_pool-closes (λ host. true) 5 (net false) fresh ops ops-IsTcp all_resolve
      (λ nodes. nodes) (λ nodes. Perm.refl nodes) some_pool (gets ∷ beats ∷ []) some_pool-IsDistinct

create_pool-closes_example :
    (p : ConnectionPool TcpConnection) × (create_pool
        (net true)
        (λ k. some (k + 5))
        address
        (49 ∷ [])
        9000
        4
      ≡ ok (done p))
    × (size_idle p ≡ 4)
    × ((i : ℕ) (calls : List Call)
        → i < 4
        → 1
          ≤ times (i + 5) (
              destroy_pool
                (λ nodes. nodes)
                (run ops (λ nodes. nodes) (λ nodes. Perm.refl nodes) p calls)))
create_pool-closes_example =
    create_pool-closes (λ host. true) (net false) fresh ops ops-IsTcp all_resolve (λ nodes. nodes)
      (λ nodes. Perm.refl nodes) (net true) (λ k. k + 5) address (49 ∷ []) 9000 2
      (λ i j below e. omega (arith, below, e)) (omega arith) resolves refl refl 4 (omega arith)
