-- ===== src/Tcp/Lending.antt =====
-- A pool of TCP connections lends the first idle one.
use asabru_engine.Common.{ℕ, ◌≡◌, ◌≢◌, ◌∙◌, arith}
use asabru_engine.Common.{true, List, [], ◌∷◌, Option, ok}
use asabru_engine.Common.{Option-cases, Checked-cases, inl, inr, ◌⊎◌}
use asabru_engine.Pool.{
  Answer, returned, threw, ConnectionOps, ConnectionPool, Node, get_connection, check_connect,
  scan_idle, hand_out, insert,
}
use asabru_engine.Pool.Owned.{get_connection_cases}
use asabru_engine.Client.{Network, reconnect}
use asabru_engine.Tcp.{TcpConnection, tcp_heart_beat, tcp_is_healthy, tcp_connect}

-- Operations that are those of TcpConnection wherever these are defined.
pub record IsTcp (net : Network) (fresh : TcpConnection → Option ℕ)
    (ops : ConnectionOps TcpConnection) : Type 0 where
  pub heart_beat_lem : (c : TcpConnection) → ops.heart_beat c ≡ tcp_heart_beat c
  pub is_healthy_lem : (c : TcpConnection) → ops.is_healthy c ≡ tcp_is_healthy c
  pub connect_lem :
      (c : TcpConnection) (r : Answer × TcpConnection)
      → tcp_connect net (fresh c) c ≡ ok r
      → ops.connect c ≡ r

-- TcpConnection never answers that it could not connect: it throws.
tcp_connect-ne-false :
    (net : Network) (fd : Option ℕ) (c c' : TcpConnection) (a : Answer)
    → tcp_connect net fd c ≡ ok (a, c')
    → (a ≡ threw) ⊎ (a ≡ returned true)
unfolding tcp_connect
tcp_connect-ne-false net fd c c' a e = elim (Option-cases c.client_socket) [
  | inl gone ↦ cc (rw (gone, tcp_connect) at e)
  | inr (socket, there) ↦ elim (Checked-cases (reconnect net fd socket)) [
    | inl bad ↦ ground arith
    | inr (outcome, fine) ↦ ground arith
  ]
]

module _ (net : Network) (fresh : TcpConnection → Option ℕ) (ops : ConnectionOps TcpConnection)
    (tcp : IsTcp net fresh ops) where
  passes :
      (c c' : TcpConnection) (a : Answer)
      → tcp_connect net (fresh c) c ≡ ok (a, c')
      → check_connect ops c ≡ (true, c')
  unfolding check_connect tcp_is_healthy
  passes c c' a e = ground (
    arith,
    tcp.is_healthy_lem c,
    tcp.connect_lem c (a, c') e,
    tcp_connect-ne-false net (fresh c) c c' a e,
  )

  -- A TCP connection never counts as healthy, so the pool reconnects the first idle one whenever it is
  -- asked, and lends it whatever became of that: connected anew, or without a connection where the
  -- reconnection threw. No other connection is tried.
  pub get_connection-lends_first :
      (walk : List (Node TcpConnection) → List (Node TcpConnection))
      (p : ConnectionPool TcpConnection) (k : ℕ) (c c' : TcpConnection) (a : Answer)
      (nodes : List (Node TcpConnection))
      → p.idle ≢ []
      → walk p.idle ≡ (k, c) ∷ nodes
      → tcp_connect net (fresh c) c ≡ ok (a, c')
      → get_connection ops walk p ≡ (
        record { m_pool = true; m_connection = k },
        record { idle = nodes; busy = insert (k, c') p.busy },
      )
  unfolding scan_idle hand_out
  get_connection-lends_first walk p k c c' a nodes some_idle first e =
      elim (get_connection_cases ops walk p) [
        | inl (empty, _) ↦ absurd (some_idle empty)
        | inr (_, runs) ↦ runs ∙ rw first (rw (passes c c' a e, scan_idle))
      ]
