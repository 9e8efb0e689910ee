-- ===== src/Engine/Descriptors.antt =====
-- The descriptors of the clients that are served, one after the other: the listener's `accept`
-- (src/socket/CServerSocket.cpp) opens one, the constructor of CClientSocket (src/socket/CClientSocket.cpp)
-- another, and ThreadHandler (src/interface/CProxySocket.cpp) deletes neither of its two sockets.
use asabru_engine.Common.{ℕ, suc, ◌≡◌}
use asabru_engine.Common.{Option, some, List, [], ◌∷◌}
use asabru_engine.Common.{Checked, ok, ◌>>=◌}
use asabru_engine.Net.Descriptors.{Table, change, close_at, IsLowest}
use asabru_engine.Proxy.{Text}
use asabru_engine.Client.{Network, new_client_socket}

abbrev close_all : List (Option ℕ) → Table → Table
close_all [] t = t
close_all (fd ∷ fds) t = close_at fd (close_all fds t)

-- The target's socket is made: it gets the file `g`, and what its constructor gave to `close` is closed.
unfoldable pub connect_target : Network → Text → ℕ → ℕ → ℕ → Table → Checked Table
unfolding new_client_socket
connect_target net name port target g t = new_client_socket net (some target) name port >>= λ made.
    ok (close_all made.1 (change target (some g) t))

-- The end of ThreadHandler, and of the task behind it, which deletes the client data: the two sockets are
-- pointers there, and nothing deletes what they point to.
unfoldable pub end_client : Option ℕ → Option ℕ → Table → Table
end_client client_socket target_socket t = t

-- A client's descriptors from `accept`, which gives it the file `f`, to the end of its task.
unfoldable pub serve_client : Network → Text → ℕ → ℕ → ℕ → ℕ → ℕ → Table → Checked Table
unfolding connect_target end_client
serve_client net name port fd f target g t =
    connect_target net name port target g (change fd (some f) t) >>= λ t'.
    ok (end_client (some fd) (some target) t')

-- Some clients were served, with whatever became of the connections to their targets.
pub data Served (t : Table) : ℕ → Table → Type 0 where
  nobody : Served t 0 t
  serves :
      {n : ℕ} {t' : Table} (fd f : ℕ)
      → Served t n t'
      → IsLowest t' fd
      → (net : Network) (name : Text) (port target g : ℕ) (t'' : Table)
      → IsLowest (change fd (some f) t') target
      → serve_client net name port fd f target g t' ≡ ok t''
      → Served t (suc n) t''
