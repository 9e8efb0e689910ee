-- ===== src/Tcp/Factory.antt =====
-- What the factory makes.
use asabru_engine.Common.{
  ◌%◌, ◌^◌, ◌<◌, ℕ, zero, suc, ◌+◌, ◌≤◌, ◌<◌, ◌≡◌, ◌≢◌, ◌==◌, if◌then◌else◌, refl, arith,
}
use asabru_engine.Common.{true, false, List, [], ◌∷◌, length, some, ok}
use asabru_engine.Proxy.{Text, done}
use asabru_engine.Pool.{ConnectionPool, Node, new_pool, size_idle}
use asabru_engine.Pool.Owned.{IsDistinct}
use asabru_engine.Pool.Keys.{weigh, count, fill_idle-weigh}
use asabru_engine.Client.{Network}
use asabru_engine.Tcp.{TcpConnection, new_tcp_connection, create_connections, create_pool}
use asabru_engine.Client.{server_name_room}
use asabru_engine.Client.Connecting.{Resolves, new_client_socket-connects}

-- The connection that the factory makes for the number `k`.
abbrev pub made : (ℕ → ℕ) → Text → ℕ → ℕ → TcpConnection
made descriptor name port k = record {
  connection_id = k;
  client_socket =
      some (record {
        s = some (descriptor k);
        m_server_name = name;
        m_server_port = port;
        closes = [];
      });
  connected = false;
}

abbrev pub nodes_from : (ℕ → ℕ) → (ℕ → ℕ) → Text → ℕ → ℕ → ℕ → List (Node TcpConnection)
nodes_from descriptor address name port zero k = []
nodes_from descriptor address name port (suc n) k =
    (address k, made descriptor name port k) ∷ nodes_from descriptor address name port n (k + 1)

abbrev pub made_pool : (ℕ → ℕ) → (ℕ → ℕ) → Text → ℕ → ℕ → ConnectionPool TcpConnection
made_pool descriptor address name port n = new_pool (nodes_from descriptor address name port n 0)

length-weigh : (m : List (Node TcpConnection)) → length m ≡ weigh (λ node. 1) m
length-weigh [] = refl
length-weigh (node ∷ m) = omega (arith, length-weigh m)

length-nodes_from :
    (descriptor address : ℕ → ℕ) (name : Text) (port n k : ℕ)
    → length (nodes_from descriptor address name port n k) ≡ n
length-nodes_from descriptor address name port zero k = refl
length-nodes_from descriptor address name port (suc n) k =
    omega (arith, length-nodes_from descriptor address name port n (k + 1))

module _ (net : Network) (descriptor address : ℕ → ℕ) (name : Text) (port a : ℕ)
    (distinct : (i j : ℕ) → i < j → address i ≢ address j) (short : length name < server_name_room)
    (resolves : Resolves net name a) (answers : net.connects a port ≡ true) where
  new_tcp_connection_lem :
      (k : ℕ)
      → new_tcp_connection net (some (descriptor k)) k name port
        ≡ ok (done (made descriptor name port k))
  unfolding new_tcp_connection
  new_tcp_connection_lem k =
      rw (new_client_socket-connects net (descriptor k) port a name short resolves answers)

  create_connections_lem :
      (n k : ℕ)
      → create_connections net (λ i. some (descriptor i)) address name port n k
        ≡ ok (done (nodes_from descriptor address name port n k))
  unfolding create_connections
  create_connections_lem zero k = refl
  create_connections_lem (suc n) k =
      rw (new_tcp_connection_lem k, create_connections) (rw (create_connections_lem n (k + 1)))

  count-above :
      (n j k : ℕ) → j < k → count (address j) (nodes_from descriptor address name port n k) ≡ 0
  count-above zero j k above = refl
  count-above (suc n) j k above =
      ground (arith, distinct j k above, count-above n j (k + 1) (omega (arith, above)))

  count-nodes_from : (i n k : ℕ) → count i (nodes_from descriptor address name port n k) ≤ 1
  count-nodes_from i zero k = omega arith
  count-nodes_from i (suc n) k =
      ground (arith, count-nodes_from i n (k + 1), count-above n k (k + 1) (omega arith))

  pub weigh-made_pool :
      (f : Node TcpConnection → ℕ) (n : ℕ)
      → weigh f (made_pool descriptor address name port n).idle
        ≡ weigh f (nodes_from descriptor address name port n 0)
  unfolding new_pool
  weigh-made_pool f n = omega (
    arith,
    fill_idle-weigh f (nodes_from descriptor address name port n 0) []
        λ i. omega (arith, count-nodes_from i n 0),
  )

  pub made_pool-IsDistinct : (n : ℕ) → IsDistinct (made_pool descriptor address name port n)
  unfolding new_pool
  made_pool-IsDistinct n i =
      omega
        (arith, count-nodes_from i n 0, weigh-made_pool (λ node. if node.0 == i then 1 else 0) n)

  pub create_pool_lem :
      (n : ℕ)
      → n < 2 ^ 16
      → create_pool net (λ k. some (descriptor k)) address name port n
        ≡ ok (done (made_pool descriptor address name port n))
  unfolding create_pool
  create_pool_lem n small =
      let same : n % 2 ^ 16 ≡ n = omega (arith, small) in
      rw (same, create_pool) (rw (create_connections_lem n 0))

  pub size_idle-made_pool : (n : ℕ) → size_idle (made_pool descriptor address name port n) ≡ n
  unfolding size_idle
  size_idle-made_pool n = omega (
    arith,
    length-weigh (made_pool descriptor address name port n).idle,
    length-weigh (nodes_from descriptor address name port n 0),
    weigh-made_pool (λ node. 1) n,
    length-nodes_from descriptor address name port n 0,
  )
