-- ===== src/Server.antt =====
-- src/socket/CServerSocket.cpp and CServerSocket.h with src/config/EngineConstants.h: the socket that
-- listens, its listener thread and the tasks that it hands to the thread pool. The results of the
-- kernel's calls enter as arguments; a thread routine is what the task's client data is given to.
pub mod Listener
pub mod Opening
pub mod Tasks
pub mod Libuv
mod Examples
use asabru_engine.Common.{
  ℕ, ◌==◌, ltb, if◌then◌else◌, Bool, true, false, List, [], ◌∷◌, ◌++◌, length,
}
use asabru_engine.Common.{Option, none, some, Checked, ok, fault, until_zero}
use asabru_engine.Proxy.{Text, Attempt, done, thrown}
use asabru_engine.Net.Blocking.{make_nonblocking, minus_one_closed, zero_with}

-- The instance that a thread belongs to, by its address; 0 is `nullptr`.
pub record NodeInfo : Type 0 where
  pub node_info : Text
  pub mode : ℕ
  pub ptr_to_instance : ℕ

-- The fields of CLIENT_DATA that the servers set; `none` is a field that a server does not set.
pub record ClientData : Type 0 where
  pub client_port : Option ℕ
  pub remote_addr : Option Text
  pub ptr_to_instance : ℕ
  pub node_info : Text
  pub mode : ℕ
  pub client_socket : Option ℕ
  pub client_target_pair : Option (ℕ × ℕ)

abbrev pub node_info_room : ℕ
node_info_room = 255

abbrev pub remote_addr_room : ℕ
remote_addr_room = 32

-- Where the socket's own address comes from is not the model's: `local_address` is its text, as
-- ProtocolHelper gives it.
pub record CServerSocket (R : Type 0) : Type 0 where
  pub s : Option ℕ
  pub m_protocol_port : ℕ
  pub max_connections : ℕ
  pub info : NodeInfo
  pub local_address : Text
  pub thread_routine : Option R

-- `::bind` and `listen`.
pub record OpenAnswers : Type 0 where
  pub binds : Bool
  pub listens : Bool

-- How Open ends: with the exception of a name, after the descriptor was closed or not, or with the
-- listener thread started.
pub data Opened (R : Type 0) : Type 0 where
  invalid_socket_closed listen_error : Opened R
  listening : Bool → CServerSocket R → Opened R

module _ {R : Type 0} where
  -- `strcpy` into the 255 bytes of `node_info`, up to the first zero and with a terminating one.
  unfoldable pub start_listening_thread :
      ℕ → Text → R → CServerSocket R → Checked (Bool × CServerSocket R)
  start_listening_thread this node_info routine c =
      if ltb (length (until_zero node_info)) node_info_room
      then ok (
        true,
        record c {
          info = record { node_info = until_zero node_info; mode = 1; ptr_to_instance = this };
          thread_routine = some routine;
        },
      )
      else fault

  unfoldable pub open_socket : ℕ → OpenAnswers → Text → R → CServerSocket R → Checked (Opened R)
  unfolding start_listening_thread
  open_socket this answers node_info routine c =
      if answers.binds
      then (if answers.listens
          then elim (start_listening_thread this node_info routine c) [
            | fault ↦ fault
            | ok (started, c') ↦ ok (listening started c')
          ]
          else ok listen_error)
      else ok invalid_socket_closed

-- What `accept` gives: a descriptor, EWOULDBLOCK or EAGAIN, or another error.
pub data Accepted : Type 0 where
  connection : ℕ → Accepted
  would_block invalid_socket : Accepted

-- Accept: a Socket for the descriptor, `nullptr`, or an exception.
unfoldable pub accept : Accepted → Attempt (Option ℕ)
accept (connection fd) = done (some fd)
accept would_block = done none
accept invalid_socket = thrown

-- The listener thread as it stands when the answers run out, or what ended it, a write behind `remote_addr`
-- among it: the thread pool's tasks,
-- the first one first.
pub data Listening : Type 0 where
  accepting : List ClientData → Listening
  null_dereferenced exception_escaped address_overrun : List ClientData → Listening
  no_instance : Listening

-- `strcpy` into the 32 bytes of `remote_addr`, with the terminating zero.
unfoldable pub client_data : {R : Type 0} → NodeInfo → CServerSocket R → ℕ → Checked ClientData
client_data info c fd =
    if ltb (length (until_zero c.local_address)) remote_addr_room
    then ok (record {
      client_port = some fd;
      remote_addr = some (until_zero c.local_address);
      ptr_to_instance = info.ptr_to_instance;
      node_info = info.node_info;
      mode = info.mode;
      client_socket = some fd;
      client_target_pair = none;
    })
    else fault

module _ {R : Type 0} (info : NodeInfo) (c : CServerSocket R) where
  -- The `while (true)` of ListenThreadProc.
  unfoldable pub listen_loop : List Accepted → List ClientData → Listening
  unfolding accept client_data
  listen_loop [] tasks = accepting tasks
  listen_loop (a ∷ answers) tasks = elim (accept a) [
    | thrown ↦ exception_escaped tasks
    | done new_sock ↦ elim new_sock [
      | none ↦ null_dereferenced tasks
      | some fd ↦ elim (client_data info c fd) [
        | fault ↦ address_overrun tasks
        | ok client ↦ listen_loop answers (tasks ++ (client ∷ []))
      ]
    ]
  ]

-- ListenThreadProc copies the node's information before it looks at the instance.
unfoldable pub listen_thread_proc : {R : Type 0} → CServerSocket R → List Accepted → Listening
unfolding listen_loop
listen_thread_proc c answers =
    if c.info.ptr_to_instance == 0 then no_instance else listen_loop c.info c answers []

-- ClientThreadProc calls the instance's routine with a copy of the data; it answers `nullptr` also
-- where the routine throws. `call` is what a routine does: what it returns, and the state behind it.
unfoldable pub client_thread_proc :
    {R A S : Type 0} → (R → ClientData → S → Attempt A × S) → R → ClientData → S → S
client_thread_proc call routine client state =
    let (result, state') = call routine client state in
    elim result [ done a ↦ state' | thrown ↦ state' ]

-- The constructor's calls: the `socket` of the base class, its own, `setsockopt`, and the two of
-- make_nonblocking.
pub record ConstructAnswers : Type 0 where
  pub base_socket : Option ℕ
  pub own_socket : Option ℕ
  pub reuse_port : Bool
  pub get_flags : Option ℕ
  pub set_flags : Bool

-- The object's descriptor, or an exception; and the descriptors that the constructor leaves open.
unfoldable pub new_server_socket : ℕ → ConstructAnswers → Bool → Attempt ℕ × List ℕ
unfolding make_nonblocking
new_server_socket nonblock answers non_blocking = elim answers.base_socket [
  | none ↦ (thrown, [])
  | some first ↦ elim answers.own_socket [
    | none ↦ (thrown, first ∷ [])
    | some fd ↦
        if answers.reuse_port
        then (if non_blocking
            then elim (make_nonblocking nonblock answers.get_flags answers.set_flags) [
              | minus_one_closed ↦ (done fd, first ∷ [])
              | zero_with flags ↦ (done fd, first ∷ fd ∷ [])
            ]
            else (done fd, first ∷ fd ∷ []))
        else (thrown, first ∷ [])
  ]
]
