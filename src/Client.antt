-- ===== src/Client.antt =====
-- src/socket/CClientSocket.cpp and CClientSocket.h: the socket that connects to a target. What the
-- kernel and the resolver answer is a parameter. A `hostent` of `gethostbyname` is static storage of
-- the C library, which must not be freed; NetworkUtils::create_hostent of the commons library is taken to
-- allocate what it returns, as the code frees it. Which characters are letters is `isalpha`'s affair.
pub mod Connecting
pub mod Closing
mod Examples
use asabru_engine.Common.{ℕ, ltb, if◌then◌else◌, Bool, true, false, List, [], ◌∷◌, length}
use asabru_engine.Common.{Option, none, some, Checked, ok, fault, ◌>>=◌}
use asabru_engine.Proxy.{Text, Attempt, done, thrown}

pub data Hostent : Type 0 where
  static_host allocated_host : ℕ → Hostent

-- One state of the network: names, addresses in dotted form, and which endpoints can be connected to.
-- `create_hostent` may throw, and may answer `nullptr`.
pub record Network : Type 0 where
  pub isalpha : ℕ → Bool
  pub gethostbyname : Text → Option ℕ
  pub create_hostent : Text → Attempt (Option ℕ)
  pub connects : ℕ → ℕ → Bool

-- `closes` records the descriptors that were given to `close`, the last one first.
pub record CClientSocket : Type 0 where
  pub s : Option ℕ
  pub m_server_name : Text
  pub m_server_port : ℕ
  pub closes : List (Option ℕ)

abbrev pub server_name_room : ℕ
server_name_room = 255

abbrev pub host_address : Hostent → ℕ
host_address (static_host a) = a
host_address (allocated_host a) = a

module _ (net : Network) where
  -- `isalpha(host[0])`; an empty text has a zero there.
  unfoldable pub is_name : Text → Bool
  is_name [] = net.isalpha 0
  is_name (b ∷ bs) = net.isalpha b

  -- `done none` is a null `m_HostPointer`.
  unfoldable pub resolve : Text → Attempt (Option Hostent)
  unfolding is_name
  resolve host =
      if is_name host
      then elim (net.gethostbyname host) [ none ↦ thrown | some a ↦ done (some (static_host a)) ]
      else elim (net.create_hostent host) [
        | thrown ↦ thrown
        | done found ↦ elim found [ none ↦ done none | some a ↦ done (some (allocated_host a)) ]
      ]

  -- `free(m_HostPointer)`
  unfoldable pub free_host : Hostent → Checked (Attempt (Unit {0}))
  free_host (static_host a) = fault
  free_host (allocated_host a) = ok (done tt)

  unfoldable pub connect : CClientSocket → Checked (Attempt (Unit {0}))
  unfolding resolve free_host
  connect c = elim (resolve c.m_server_name) [
    | thrown ↦ ok thrown
    | done found ↦ elim found [
      | none ↦ fault
      | some host ↦
          if net.connects (host_address host) c.m_server_port then free_host host else ok thrown
    ]
  ]

  -- Close, CreateSocket with the descriptor that `socket` gives, and Connect.
  unfoldable pub reconnect : Option ℕ → CClientSocket → Checked (Attempt (Unit {0}) × CClientSocket)
  unfolding connect
  reconnect none c = ok (thrown, record c { s = none; closes = c.s ∷ c.closes })
  reconnect (some fd) c =
      let c' = record c { s = some fd; closes = c.s ∷ c.closes } in
      connect c' >>= λ result. ok (result, c')

  -- The constructor: the descriptor of the base class, the copy of the name with its final zero, and
  -- Connect. Where that throws, the destructor of the base class closes the descriptor.
  unfoldable pub new_client_socket :
      Option ℕ → Text → ℕ → Checked (Attempt CClientSocket × List (Option ℕ))
  unfolding connect
  new_client_socket none server_name client_port = ok (thrown, [])
  new_client_socket (some fd) server_name client_port =
      let c : CClientSocket = record {
        s = some fd;
        m_server_name = server_name;
        m_server_port = client_port;
        closes = [];
      } in
      if ltb (length server_name) server_name_room
      then (connect c >>= λ result. elim result [
        | thrown ↦ ok (thrown, some fd ∷ [])
        | done _ ↦ ok (done c, [])
      ])
      else fault

-- ~CClientSocket closes the descriptor, and ~Socket closes it again where the counter, 1 without copies,
-- reaches 0: all that is given to `close`, the last one first.
unfoldable pub destroy_client_socket : CClientSocket → List (Option ℕ)
destroy_client_socket c = c.s ∷ c.s ∷ c.closes
