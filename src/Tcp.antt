-- ===== src/Tcp.antt =====
-- src/connection_pool/TcpConnection.h: a client socket as a connection of the pool, and the factory of
-- pools of such connections. The addresses that `new` gives are a parameter, one for each connection.
pub mod Lending
pub mod Factory
pub mod Shutdown
pub mod Lifetime
mod Examples
use asabru_engine.Common.{◌%◌, ◌^◌, ℕ, zero, suc, ◌+◌, Bool, true, false, List, [], ◌∷◌, ◌++◌}
use asabru_engine.Common.{Option, none, some, Checked, ok, fault, ◌>>=◌}
use asabru_engine.Proxy.{Text, Attempt, done, thrown}
use asabru_engine.Pool.{Answer, returned, threw, ConnectionPool, Node, new_pool}
use asabru_engine.Client.{
  Network, CClientSocket, reconnect, new_client_socket, destroy_client_socket,
}

-- `client_socket` is `nullptr` after disconnect.
pub record TcpConnection : Type 0 where
  pub connection_id : ℕ
  pub client_socket : Option CClientSocket
  pub connected : Bool

unfoldable pub tcp_heart_beat : TcpConnection → Answer × TcpConnection
tcp_heart_beat c = (returned c.connected, c)

unfoldable pub tcp_is_healthy : TcpConnection → Answer × TcpConnection
tcp_is_healthy c = (returned false, c)

-- Close, and then the destructor of the socket: the descriptors that were given to `close`.
unfoldable pub tcp_disconnect : TcpConnection → TcpConnection × List (Option ℕ)
unfolding destroy_client_socket
tcp_disconnect c = (
  record c { client_socket = none; connected = false },
  elim c.client_socket [
    | none ↦ []
    | some socket ↦ destroy_client_socket (record socket { closes = socket.s ∷ socket.closes })
  ],
)

-- ~TcpConnection
unfoldable pub destroy_tcp_connection : TcpConnection → List (Option ℕ)
unfolding tcp_disconnect
destroy_tcp_connection c = (tcp_disconnect c).1

-- What the connections of a map give to `close`, from the constructor of each to its destructor.
unfoldable pub destroy_nodes : List (Node TcpConnection) → List (Option ℕ)
unfolding destroy_tcp_connection
destroy_nodes [] = []
destroy_nodes ((k, c) ∷ nodes) = destroy_tcp_connection c ++ destroy_nodes nodes

-- ~ConnectionPool: the busy map is the later member, so it goes first.
unfoldable pub destroy_pool :
    (List (Node TcpConnection) → List (Node TcpConnection))
    → ConnectionPool TcpConnection
    → List (Option ℕ)
unfolding destroy_nodes
destroy_pool walk p = destroy_nodes (walk p.busy) ++ destroy_nodes (walk p.idle)

module _ (net : Network) where
  -- `fresh` is what `socket` gives to CreateSocket.
  unfoldable pub tcp_connect : Option ℕ → TcpConnection → Checked (Answer × TcpConnection)
  unfolding reconnect
  tcp_connect fresh c = elim c.client_socket [
    | none ↦ fault
    | some socket ↦ reconnect net fresh socket >>= λ outcome. elim outcome.0 [
      | thrown ↦ ok (threw, record c { client_socket = some outcome.1 })
      | done _ ↦ ok (returned true, record c { client_socket = some outcome.1; connected = true })
    ]
  ]

  unfoldable pub new_tcp_connection : Option ℕ → ℕ → Text → ℕ → Checked (Attempt TcpConnection)
  unfolding new_client_socket
  new_tcp_connection fresh connection_id server_name server_port =
      new_client_socket net fresh server_name server_port >>= λ outcome. elim outcome.0 [
        | thrown ↦ ok thrown
        | done socket ↦ ok (
            done (record {
              connection_id = connection_id;
              client_socket = some socket;
              connected = false;
            }))
      ]

  -- The loop of the factory over `num_connections`, from the connection `k`: `descriptor` gives what
  -- `socket` gives for each, `address` where it is allocated.
  unfoldable pub create_connections :
      (ℕ → Option ℕ) → (ℕ → ℕ) → Text → ℕ → ℕ → ℕ → Checked (Attempt (List (Node TcpConnection)))
  unfolding new_tcp_connection
  create_connections descriptor address name port zero k = ok (done [])
  create_connections descriptor address name port (suc rounds) k =
      new_tcp_connection (descriptor k) k name port >>= λ made. elim made [
        | thrown ↦ ok thrown
        | done connection ↦
            create_connections descriptor address name port rounds (k + 1) >>= λ later. elim later [
              | thrown ↦ ok thrown
              | done connections ↦ ok (done ((address k, connection) ∷ connections))
            ]
      ]

  -- `num_connections` is a `std::uint16_t`.
  unfoldable pub create_pool :
      (ℕ → Option ℕ) → (ℕ → ℕ) → Text → ℕ → ℕ → Checked (Attempt (ConnectionPool TcpConnection))
  unfolding create_connections
  create_pool descriptor address name port num_connections =
      create_connections descriptor address name port (num_connections % 2 ^ 16) 0 >>= λ made.
      elim made [ thrown ↦ ok thrown | done connections ↦ ok (done (new_pool connections)) ]
