-- ===== src/Tcp/Shutdown.antt =====
-- From the calls of a pool of TCP connections to its destructor: what becomes of the descriptors.
use asabru_engine.Common.{ℕ, ◌+◌, ◌≤◌, ◌==◌, ◌≡◌, if◌then◌else◌, refl, ap, ◌∙◌, arith}
use asabru_engine.Common.{Bool, true, false, List, [], ◌∷◌, ◌++◌, Option, none, some, ok}
use asabru_engine.Common.{Bool-cases, Option-cases, inl, inr}
use mathlib.Core.List.{Perm}
use asabru_engine.Proxy.{Text, Attempt, done, thrown}
use asabru_engine.Pool.{Answer, returned, threw, Node, ConnectionOps, ConnectionPool}
use asabru_engine.Pool.Keys.{weigh-Perm}
use asabru_engine.Pool.Owned.{Call, IsDistinct, run}
use asabru_engine.Pool.Weighed.{total, pool_total, Grows, run-grows}
use asabru_engine.Client.{Network, CClientSocket, reconnect, destroy_client_socket}
use asabru_engine.Client.Connecting.{Resolves, connect-answers}
use asabru_engine.Tcp.{
  TcpConnection, tcp_heart_beat, tcp_is_healthy, tcp_disconnect, tcp_connect,
  destroy_tcp_connection, destroy_nodes, destroy_pool,
}
use asabru_engine.Tcp.Lending.{IsTcp}

-- How often a descriptor was given to `close`.
abbrev pub times : ℕ → List (Option ℕ) → ℕ
times fd [] = 0
times fd (none ∷ l) = times fd l
times fd (some j ∷ l) = (if j == fd then 1 else 0) + times fd l

times-append : (fd : ℕ) (l m : List (Option ℕ)) → times fd (l ++ m) ≡ times fd l + times fd m
times-append fd [] m = omega arith
times-append fd (none ∷ l) m = times-append fd l m
times-append fd (some j ∷ l) m = omega (arith, times-append fd l m)

module _ (named : Text → Bool) (fd : ℕ) where
  -- Whether the descriptor is the connection's, for a connection to a host with the name asked for.
  abbrev pub holds : TcpConnection → ℕ
  holds c = elim c.client_socket [
    | none ↦ 0
    | some socket ↦ if named socket.m_server_name then times fd (socket.s ∷ []) else 0
  ]

  -- How often it was: it is now, or it was when the socket was closed.
  abbrev had_socket : CClientSocket → ℕ
  had_socket socket = if named socket.m_server_name then times fd (socket.s ∷ socket.closes) else 0

  abbrev had_at : Option CClientSocket → ℕ
  had_at none = 0
  had_at (some socket) = had_socket socket

  abbrev had : TcpConnection → ℕ
  had c = had_at c.client_socket

  times-cons :
      (s : Option ℕ) (l : List (Option ℕ)) → times fd (s ∷ l) ≡ times fd (s ∷ []) + times fd l
  times-cons none l = omega arith
  times-cons (some j) l = omega arith

  holds-had : (c : TcpConnection) → holds c ≤ had c
  holds-had c = elim (Option-cases c.client_socket) [
    | inl gone ↦ rw gone (omega arith)
    | inr (socket, there) ↦ elim (Bool-cases (named socket.m_server_name)) [
      | inl e ↦ rw (there, e) (omega (arith, times-cons socket.s socket.closes))
      | inr e ↦ rw (there, e) (omega arith)
    ]
  ]

  had_socket-destroy :
      (socket : CClientSocket)
      → had_socket socket
        ≤ times fd (destroy_client_socket (record socket { closes = socket.s ∷ socket.closes }))
  unfolding destroy_client_socket
  had_socket-destroy socket = elim (Bool-cases (named socket.m_server_name)) [
    | inl e ↦ rw e (
        omega (
          arith,
          times-cons socket.s (socket.s ∷ socket.s ∷ socket.closes),
          times-cons socket.s (socket.s ∷ socket.closes),
        ))
    | inr e ↦ rw e (omega arith)
  ]

  had-destroy_tcp_connection : (c : TcpConnection) → had c ≤ times fd (destroy_tcp_connection c)
  unfolding destroy_tcp_connection tcp_disconnect
  had-destroy_tcp_connection c = elim (Option-cases c.client_socket) [
    | inl gone ↦ rw gone (omega arith)
    | inr (socket, there) ↦ rw there (had_socket-destroy socket)
  ]

  total-destroy_nodes :
      (nodes : List (Node TcpConnection)) → total had nodes ≤ times fd (destroy_nodes nodes)
  unfolding destroy_nodes
  total-destroy_nodes [] = omega arith
  total-destroy_nodes ((k, c) ∷ nodes) = omega (
    arith,
    times-append fd (destroy_tcp_connection c) (destroy_nodes nodes),
    had-destroy_tcp_connection c,
    total-destroy_nodes nodes,
  )

  total-holds : (nodes : List (Node TcpConnection)) → total holds nodes ≤ total had nodes
  total-holds [] = omega arith
  total-holds ((k, c) ∷ nodes) = omega (arith, holds-had c, total-holds nodes)

  module _ (net : Network) (fresh : TcpConnection → Option ℕ) (ops : ConnectionOps TcpConnection)
      (tcp : IsTcp net fresh ops)
      (resolves : (host : Text) → named host ≡ true → (a : ℕ) × Resolves net host a) where
    reconnect-had :
        (now : Option ℕ) (socket : CClientSocket)
        → named socket.m_server_name ≡ true
        → (outcome : Attempt (Unit {0}) × CClientSocket) × (reconnect net now socket ≡ ok outcome)
          × (had_socket socket ≤ had_socket outcome.1)
    unfolding reconnect
    reconnect-had none socket n = ((thrown, _), refl, rw n (omega arith))
    reconnect-had (some j) socket n =
        let c : CClientSocket = record socket { s = some j; closes = socket.s ∷ socket.closes } in
        let (a, h) = resolves socket.m_server_name n in
        let (m, e) = connect-answers net c a h in
        ((m, c), rw e, rw n (omega (arith, times-cons (some j) (socket.s ∷ socket.closes))))

    tcp_connect-outcome :
        (now : Option ℕ) (c : TcpConnection) (socket : CClientSocket)
        (outcome : Attempt (Unit {0}) × CClientSocket)
        → c.client_socket ≡ some socket
        → reconnect net now socket ≡ ok outcome
        → (r : Answer × TcpConnection) × (tcp_connect net now c ≡ ok r)
          × (r.1.client_socket ≡ some outcome.1)
    unfolding tcp_connect
    tcp_connect-outcome now c socket (thrown, after) there e =
        ((threw, record c { client_socket = some after }), ground arith, refl)
    tcp_connect-outcome now c socket (done _, after) there e = (
      (returned true, record c { client_socket = some after; connected = true }),
      ground arith,
      refl,
    )

    connect-had :
        (c : TcpConnection) (socket : CClientSocket)
        → c.client_socket ≡ some socket
        → named socket.m_server_name ≡ true
        → had c ≤ had (ops.connect c).1
    connect-had c socket there n =
        let (outcome, e, more) = reconnect-had (fresh c) socket n in
        let (r, runs, after) = tcp_connect-outcome (fresh c) c socket outcome there e in
        let same : had (ops.connect c).1 ≡ had r.1 =
          ap (λ (q : Answer × TcpConnection). had q.1) (tcp.connect_lem c r runs) in
        omega (arith, more, same, ap had_at there, ap had_at after)

    had-unnamed :
        (c : TcpConnection) (socket : CClientSocket)
        → c.client_socket ≡ some socket
        → named socket.m_server_name ≡ false
        → had c ≡ 0
    had-unnamed c socket there n = ap had_at there ∙ rw n

    grows : Grows had ops
    unfolding tcp_heart_beat tcp_is_healthy
    grows = record {
      heart_beat_grows = λ c. rw (tcp.heart_beat_lem c) (omega arith);
      is_healthy_grows = λ c. rw (tcp.is_healthy_lem c) (omega arith);
      connect_grows = λ c. elim (Option-cases c.client_socket) [
        | inl gone ↦ rw gone (omega arith)
        | inr (socket, there) ↦ elim (Bool-cases (named socket.m_server_name)) [
          | inl n ↦ connect-had c socket there n
          | inr n ↦ omega (arith, had-unnamed c socket there n)
        ]
      ];
    }

    -- At any moment in the life of a pool of TCP connections with distinct addresses, in whatever order
    -- its maps are walked, and for a descriptor and any hosts that are dotted and resolve: the connections
    -- to these hosts that have the descriptor at that moment, idle or lent, are no more than the times
    -- that it is given to `close`, counted over all the connections of the pool until the destructor of
    -- the pool has run, whatever calls come before that: no reconnection, failed ones included, lease or
    -- release loses a descriptor.
    pub destroy_pool-closes :
        (walk : List (Node TcpConnection) → List (Node TcpConnection))
        (walks : (nodes : List (Node TcpConnection)) → Perm (walk nodes) nodes)
        (p : ConnectionPool TcpConnection) (calls : List Call)
        → IsDistinct p
        → pool_total holds p ≤ times fd (destroy_pool walk (run ops walk walks p calls))
    unfolding destroy_pool
    destroy_pool-closes walk walks p calls d =
        let q = run ops walk walks p calls in
        omega (
          arith,
          total-holds p.idle,
          total-holds p.busy,
          run-grows had ops grows walk walks p calls d,
          times-append fd (destroy_nodes (walk q.busy)) (destroy_nodes (walk q.idle)),
          total-destroy_nodes (walk q.busy),
          total-destroy_nodes (walk q.idle),
          weigh-Perm (λ node. had node.1) (walks q.busy),
          weigh-Perm (λ node. had node.1) (walks q.idle),
        )
