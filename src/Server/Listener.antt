-- ===== src/Server/Listener.antt =====
-- The tasks that the listener thread hands to the pool.
use asabru_engine.Common.{ℕ, ◌==◌, ◌<◌, ◌≡◌, ◌≢◌, refl, ◌∙◌, arith, lt→ltb}
use asabru_engine.Common.{
  true, false, List, [], ◌∷◌, ◌++◌, append_assoc, append-nil, map, length, none, some,
}
use asabru_engine.Common.{ok, until_zero}
use asabru_engine.Proxy.{Text}
use asabru_engine.Server.{
  NodeInfo, ClientData, CServerSocket, listening, start_listening_thread, open_socket, Accepted,
  connection, would_block, invalid_socket, accepting, null_dereferenced, exception_escaped,
  client_data, listen_loop, listen_thread_proc, node_info_room, remote_addr_room,
}

abbrev pub connections : List ℕ → List Accepted → List Accepted
connections [] rest = rest
connections (fd ∷ fds) rest = connection fd ∷ connections fds rest

abbrev pub task : ℕ → Text → Text → ℕ → ClientData
task this node_info local_address fd = record {
  client_port = some fd;
  remote_addr = some (until_zero local_address);
  ptr_to_instance = this;
  node_info = until_zero node_info;
  mode = 1;
  client_socket = some fd;
  client_target_pair = none;
}

abbrev pub client_of : {R : Type 0} → NodeInfo → CServerSocket R → ℕ → ClientData
client_of info c fd = record {
  client_port = some fd;
  remote_addr = some (until_zero c.local_address);
  ptr_to_instance = info.ptr_to_instance;
  node_info = info.node_info;
  mode = info.mode;
  client_socket = some fd;
  client_target_pair = none;
}

-- The text of the server's own address fits `remote_addr`.
abbrev pub FitsRemote : Text → Type 0
FitsRemote local_address = length (until_zero local_address) < remote_addr_room

module _ {R : Type 0} where
  client_data-client_of :
      (info : NodeInfo) (c : CServerSocket R) (fd : ℕ)
      → FitsRemote c.local_address
      → client_data info c fd ≡ ok (client_of info c fd)
  unfolding client_data
  client_data-client_of info c fd fits =
      rw (lt→ltb (length (until_zero c.local_address)) remote_addr_room fits, client_data)

  listen_loop-connections :
      (info : NodeInfo) (c : CServerSocket R) (fds : List ℕ) (rest : List Accepted)
      (tasks : List ClientData)
      → FitsRemote c.local_address
      → listen_loop info c (connections fds rest) tasks
        ≡ listen_loop info c rest (tasks ++ map (client_of info c) fds)
  unfolding listen_loop
  listen_loop-connections info c [] rest tasks fits = rw (append-nil tasks)
  listen_loop-connections info c (fd ∷ fds) rest tasks fits =
      rw (client_data-client_of info c fd fits, listen_loop)
        (listen_loop-connections info c fds rest (tasks ++ (client_of info c fd ∷ [])) fits
          ∙ rw (append_assoc tasks (client_of info c fd ∷ []) (map (client_of info c) fds)))

  -- The listener thread of an instance whose address takes fewer than 32 bytes makes one task for each
  -- connection that it accepts, in their order and with the connection's descriptor; it goes on as long as
  -- connections come. The first EWOULDBLOCK makes it go through a null pointer, and any other error ends
  -- it by an exception that nothing catches; the tasks that it made until then stay.
  pub listen_thread_proc-connections :
      (c : CServerSocket R) (fds : List ℕ) (answers : List Accepted)
      → c.info.ptr_to_instance ≢ 0
      → FitsRemote c.local_address
      → let tasks = map (client_of c.info c) fds in
        (listen_thread_proc c (connections fds []) ≡ accepting tasks)
        × (listen_thread_proc c (connections fds (would_block ∷ answers)) ≡ null_dereferenced tasks)
        × (listen_thread_proc c (connections fds (invalid_socket ∷ answers))
            ≡ exception_escaped tasks)
  unfolding listen_thread_proc listen_loop
  listen_thread_proc-connections c fds answers h fits = (
    rw (there, listen_thread_proc) (listen_loop-connections c.info c fds [] [] fits),
    rw (there, listen_thread_proc)
        (listen_loop-connections c.info c fds (would_block ∷ answers) [] fits),
    rw (there, listen_thread_proc)
        (listen_loop-connections c.info c fds (invalid_socket ∷ answers) [] fits),
  )
    where
      there : (c.info.ptr_to_instance == 0) ≡ false
      there = ground arith

  pub open_socket-connections :
      (this : ℕ) (node_info : Text) (routine : R) (c : CServerSocket R) (fds : List ℕ)
      (answers : List Accepted)
      → this ≢ 0
      → length (until_zero node_info) < node_info_room
      → FitsRemote c.local_address
      → let tasks = map (task this node_info c.local_address) fds in
        (c' : CServerSocket R) × (open_socket this
            (record { binds = true; listens = true })
            node_info
            routine
            c
          ≡ ok (listening true c'))
        × (c'.thread_routine ≡ some routine)
        × (listen_thread_proc c' (connections fds []) ≡ accepting tasks)
        × (listen_thread_proc c' (connections fds (would_block ∷ answers))
            ≡ null_dereferenced tasks)
        × (listen_thread_proc c' (connections fds (invalid_socket ∷ answers))
            ≡ exception_escaped tasks)
  unfolding open_socket
  open_socket-connections this node_info routine c fds answers h short fits =
      let (goes_on, null, escapes) = listen_thread_proc-connections c' fds answers h fits in
      (
        c',
        rw (
          lt→ltb (length (until_zero node_info)) node_info_room short,
          start_listening_thread,
          open_socket,
        ),
        refl,
        goes_on,
        null,
        escapes,
      )
    where
      c' : CServerSocket R
      c' = record c {
        info = record { node_info = until_zero node_info; mode = 1; ptr_to_instance = this };
        thread_routine = some routine;
      }
