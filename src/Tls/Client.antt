-- ===== src/Tls/Client.antt =====
-- CClientSSLSocket: the connection, the session on it, and how the constructor fails.
use asabru_engine.Common.{ℕ, ltb, ◌≡◌, ◌⊎◌, inl, inr, refl, if◌then◌else◌, arith, length}
use asabru_engine.Common.{Bool, true, [], ◌∷◌, Option, none, some, Bool-cases, Checked, ok, fault}
use asabru_engine.Proxy.{Text, Attempt, done, thrown}
use asabru_engine.Client.{server_name_room}
use asabru_engine.Client.Connecting.{Attempt-cases}
use asabru_engine.Common.{Option-cases, ◌∙◌}
use asabru_engine.Tls.{
  unset, live, TlsAnswers, client_method, SslSocket, Ended, finished, threw, exited, ◌>>=◌,
  new_ssl_socket, close, handle_error, verify_certificates,
}

-- The network as CClientSSLSocket asks it: both resolvers may fail, and `gethostbyaddr` may answer
-- `nullptr`.
pub record SslNetwork : Type 0 where
  pub isalpha : ℕ → Bool
  pub gethostbyname : Text → Option ℕ
  pub gethostbyaddr : Text → Option ℕ
  pub connects : ℕ → ℕ → Bool
  pub new_session : Bool
  pub sets_tlsext_host_name : Text → Bool
  pub sets_host : Text → Bool
  pub ssl_connects : Bool

-- An exception behind the constructor of the base class runs ~SSLSocket, which closes the session, and
-- then ~Socket.
unfoldable pub unwind : Checked Ended → Checked Ended
unfolding close
unwind m = elim m [
  | fault ↦ fault
  | ok r ↦ elim r [
    | finished o ↦ ok (finished o)
    | exited o ↦ ok (exited o)
    | threw o ↦ elim (close o) [ fault ↦ fault | ok o' ↦ ok (threw o') ]
  ]
]

module _ (net : SslNetwork) where
  unfoldable pub is_name : Text → Bool
  is_name [] = net.isalpha 0
  is_name (b ∷ bs) = net.isalpha b

  -- `done none`: `m_HostPointer` is null.
  unfoldable pub resolve : Text → Attempt (Option ℕ)
  unfolding is_name
  resolve host =
      if is_name host
      then elim (net.gethostbyname host) [ none ↦ thrown | some a ↦ done (some a) ]
      else done (net.gethostbyaddr host)

  unfoldable pub tcp_connect : Text → ℕ → SslSocket → Checked Ended
  unfolding resolve
  tcp_connect name port o = elim (resolve name) [
    | thrown ↦ ok (threw o)
    | done found ↦ elim found [
      | none ↦ fault
      | some a ↦ if net.connects a port then ok (finished o) else ok (threw o)
    ]
  ]

  -- What SSL_new gives is used at once, also where it is a null pointer.
  unfoldable pub ssl_connect : Text → SslSocket → Checked Ended
  unfolding handle_error
  ssl_connect name o =
      let o' = record o { ssl = live } in
      if net.new_session
      then (if net.sets_tlsext_host_name name
          then (if net.sets_host name
              then (if net.ssl_connects then ok (finished o') else handle_error o')
              else handle_error o')
          else handle_error o')
      else fault

  unfoldable pub connect : Text → ℕ → SslSocket → Checked Ended
  unfolding tcp_connect ssl_connect
  connect name port o = tcp_connect name port o >>= ssl_connect name

  -- CClientSSLSocket(server_name, client_port)
  unfoldable pub new_client_ssl_socket : TlsAnswers → ℕ → Text → ℕ → Checked Ended
  unfolding connect unwind
  new_client_ssl_socket answers fd server_name client_port =
      new_ssl_socket answers fd client_method >>= λ o.
      if ltb (length server_name) server_name_room
      then unwind (connect server_name client_port o)
      else fault

  -- CClientSSLSocket(s, server_name, server_port)
  unfoldable pub adopt_client_ssl_socket : TlsAnswers → ℕ → Text → Checked Ended
  unfolding ssl_connect unwind
  adopt_client_ssl_socket answers fd server_name = new_ssl_socket answers fd client_method >>= λ o.
      if ltb (length server_name) server_name_room
      then unwind (ssl_connect server_name o)
      else fault

-- The session that a client ends with.
abbrev pub client_object : TlsAnswers → ℕ → SslSocket
client_object answers fd = record {
  s = fd;
  ctx = live;
  ssl = live;
  verify_peer = some (verify_certificates answers);
}

-- An exception behind the set-up of the context always meets a session that cannot be closed.
ssl_connect_cases :
    (net : SslNetwork) (name : Text) (o : SslSocket)
    → o.ctx ≡ live
    → ((net.ssl_connects ≡ true)
        × (ssl_connect net name o ≡ ok (finished (record o { ssl = live }))))
      ⊎ (unwind (ssl_connect net name o) ≡ fault)
unfolding ssl_connect unwind
ssl_connect_cases net name o e = elim (Bool-cases net.new_session) [
  | inr s ↦ inr (ground arith)
  | inl s ↦ elim (Bool-cases (net.sets_tlsext_host_name name)) [
    | inr n ↦ inr (ground arith)
    | inl n ↦ elim (Bool-cases (net.sets_host name)) [
      | inr h ↦ inr (ground arith)
      | inl h ↦ elim (Bool-cases net.ssl_connects) [
        | inr c ↦ inr (ground arith)
        | inl c ↦ inl (c, ground arith)
      ]
    ]
  ]
]

connect_cases :
    (net : SslNetwork) (name : Text) (port : ℕ) (o : SslSocket)
    → o.ctx ≡ live
    → o.ssl ≡ unset
    → ((a : ℕ) × (resolve net name ≡ done (some a))
        × (net.connects a port ≡ true)
        × (net.ssl_connects ≡ true)
        × (connect net name port o ≡ ok (finished (record o { ssl = live }))))
      ⊎ (unwind (connect net name port o) ≡ fault)
unfolding connect tcp_connect unwind
connect_cases net name port o e e' = elim (Attempt-cases (resolve net name)) [
  | inl throws ↦ inr (ground arith)
  | inr (found, r) ↦ elim (Option-cases found) [
    | inl null ↦ inr (ground arith)
    | inr (a, there) ↦ elim (Bool-cases (net.connects a port)) [
      | inr refused ↦ inr (ground arith)
      | inl up ↦ elim (ssl_connect_cases net name o e) [
        | inl (secure, runs) ↦ inl (a, r ∙ rw there, up, secure, reached a found r there up ∙ runs)
        | inr bad ↦ inr (rw (reached a found r there up, unwind) bad)
      ]
    ]
  ]
]
  where
    reached :
        (a : ℕ) (found : Option ℕ)
        → resolve net name ≡ done found
        → found ≡ some a
        → net.connects a port ≡ true
        → connect net name port o ≡ ssl_connect net name o
    reached a found r there up = rw (r, connect, tcp_connect) (rw (there, up))

-- Once the context of a client's socket exists, the constructor either connects, with a session on a
-- connection to the resolved endpoint, or it faults: no failure of the certificate store, the protocol
-- version, the name, the connection or the handshake ends in an exception that a caller could catch.
pub new_client_ssl_socket_cases :
    (net : SslNetwork) (answers : TlsAnswers) (fd : ℕ) (name : Text) (port : ℕ)
    → answers.new_context ≡ true
    → ((a : ℕ) × (resolve net name ≡ done (some a))
        × (net.connects a port ≡ true)
        × (net.ssl_connects ≡ true)
        × (new_client_ssl_socket net answers fd name port
            ≡ ok (finished (client_object answers fd))))
      ⊎ (new_client_ssl_socket net answers fd name port ≡ fault)
unfolding new_client_ssl_socket new_ssl_socket
new_client_ssl_socket_cases net answers fd name port made =
    elim (Bool-cases answers.default_verify_paths) [
      | inr paths ↦ inr (rw (made, new_client_ssl_socket) (rw paths))
      | inl paths ↦ elim (Bool-cases answers.min_proto_version) [
        | inr version ↦ inr (rw (made, paths, version))
        | inl version ↦ elim (Bool-cases (ltb (length name) server_name_room)) [
          | inr long ↦ inr (rw (made, paths, version, long))
          | inl short ↦ elim (connect_cases net name port base refl refl) [
            | inl (a, r, up, secure, runs) ↦
                inl (a, r, up, secure, rw (made, paths, version, short, runs))
            | inr bad ↦ inr (rw (made, paths, version, short) bad)
          ]
        ]
      ]
    ]
  where
    base : SslSocket
    base = record {
      s = fd;
      ctx = live;
      ssl = unset;
      verify_peer = some (verify_certificates answers);
    }
