-- ===== src/Tls.antt =====
-- src/socket/SSLSocket.cpp, SSLSocket.h and CClientSSLSocket.cpp: sockets with an OpenSSL session. OpenSSL,
-- the environment variables and the network are not the program's: what their calls answer is a record,
-- and of OpenSSL's objects the model keeps whether a pointer was set and whether its object was freed. A
-- use of a pointer that was never set, or whose object is freed, is a fault.
pub mod Session
pub mod Client
pub mod Reading
pub mod Blocking
pub mod Life
mod Examples
use asabru_engine.Common.{ℕ, ltb, if◌then◌else◌, Bool, true, false, List, [], ◌∷◌, length}
use asabru_engine.Common.{Option, none, some, Checked, ok, fault}
use asabru_engine.Proxy.{Text}

pub data Pointer : Type 0 where
  unset live freed : Pointer

-- What each call answers when it is made: whether it succeeds. The three variables of the environment
-- that are read as text are here as whether they are set, and SSL_VERIFY_CERT as whether it is "true".
pub record TlsAnswers : Type 0 where
  pub new_context : Bool
  pub verify_cert : Option Bool
  pub default_verify_paths : Bool
  pub min_proto_version : Bool
  pub cert_file_path : Bool
  pub key_file_path : Bool
  pub use_certificate : Bool
  pub use_private_key : Bool
  pub new_session : Bool
  pub accepts : Bool

pub data Method : Type 0 where
  server_method client_method other_method : Method

pub record SslSocket : Type 0 where
  pub s : ℕ
  pub ctx : Pointer
  pub ssl : Pointer
  pub verify_peer : Option Bool

-- How a step of the set-up ends: with the object, with an exception, or by `exit`.
pub data Ended : Type 0 where
  finished threw exited : SslSocket → Ended

infixl 5 ◌>>=◌
abbrev pub ◌>>=◌ : Checked Ended → (SslSocket → Checked Ended) → Checked Ended
◌>>=◌ m f = elim m [
  | fault ↦ fault
  | ok r ↦ elim r [ finished o ↦ f o | threw o ↦ ok (threw o) | exited o ↦ ok (exited o) ]
]

-- SSL_free of the session and SSL_CTX_free of the context.
unfoldable pub free_session : SslSocket → Checked SslSocket
free_session o = elim o.ssl [
  | unset ↦ fault
  | freed ↦ fault
  | live ↦ elim o.ctx [
    | unset ↦ fault
    | freed ↦ fault
    | live ↦ ok (record o { ssl = freed; ctx = freed })
  ]
]

-- handle_error, and the `throw` that stands behind each of its calls.
unfoldable pub handle_error : SslSocket → Checked Ended
unfolding free_session
handle_error o = elim (free_session o) [ fault ↦ fault | ok o' ↦ ok (threw o') ]

-- Close: SSL_shutdown uses the session before both are freed.
unfoldable pub close : SslSocket → Checked SslSocket
unfolding free_session
close o = free_session o

module _ (answers : TlsAnswers) where
  unfoldable pub create_context : SslSocket → Checked Ended
  create_context o =
      if answers.new_context then ok (finished (record o { ctx = live })) else ok (threw o)

  unfoldable pub verify_certificates : Bool
  verify_certificates = elim answers.verify_cert [ none ↦ true | some is_true ↦ is_true ]

  unfoldable pub configure_client_context : SslSocket → Checked Ended
  unfolding handle_error verify_certificates
  configure_client_context o =
      let o' = record o { verify_peer = some verify_certificates } in
      if answers.default_verify_paths
      then (if answers.min_proto_version then ok (finished o') else handle_error o')
      else handle_error o'

  unfoldable pub configure_server_context : SslSocket → Checked Ended
  configure_server_context o =
      if answers.cert_file_path
      then (if answers.key_file_path
          then (if answers.use_certificate
              then (if answers.use_private_key then ok (finished o) else ok (exited o))
              else ok (exited o))
          else ok (threw o))
      else ok (threw o)

  -- SSL_new, SSL_set_fd and SSL_accept. The code does not look at what SSL_new gives: a null pointer is
  -- used at once.
  unfoldable pub accept_session : SslSocket → Checked Ended
  unfolding handle_error
  accept_session o =
      let o' = record o { ssl = live } in
      if answers.new_session
      then (if answers.accepts then ok (finished o') else handle_error o')
      else fault

  unfoldable pub init : Method → SslSocket → Checked Ended
  unfolding create_context configure_server_context accept_session configure_client_context
  init server_method o = create_context o >>= configure_server_context >>= accept_session
  init client_method o = create_context o >>= configure_client_context
  init other_method o = create_context o

  -- SSLSocket(SOCKET s, method). Where it throws, only the base class is destroyed, which closes the
  -- descriptor.
  unfoldable pub new_ssl_socket : ℕ → Method → Checked Ended
  unfolding init
  new_ssl_socket fd method =
      init method (record { s = fd; ctx = unset; ssl = unset; verify_peer = none })
