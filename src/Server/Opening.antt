-- ===== src/Server/Opening.antt =====
-- What the constructor of CServerSocket and Open leave behind when they fail.
use asabru_engine.Common.{ℕ, ◌≡◌, ◌≢◌, arith}
use asabru_engine.Common.{Bool, List, [], ◌∷◌, some}
use asabru_engine.Proxy.{done}
use asabru_engine.Server.{ConstructAnswers, new_server_socket}

-- The constructor of the base class opens a descriptor that the constructor of CServerSocket overwrites:
-- whatever the kernel answers, and whether it throws or not, the first descriptor stays open, and the
-- object does not hold it.
pub new_server_socket-leaks :
    (nonblock : ℕ) (answers : ConstructAnswers) (non_blocking : Bool) (first : ℕ)
    → answers.base_socket ≡ some first
    → answers.own_socket ≢ some first
    → (rest : List ℕ) × ((new_server_socket nonblock answers non_blocking).1 ≡ first ∷ rest)
      × ((new_server_socket nonblock answers non_blocking).0 ≢ done first)
unfolding new_server_socket
new_server_socket-leaks nonblock answers non_blocking first e differ =
    (tail (new_server_socket nonblock answers non_blocking).1, ground arith, ground arith)
  where
    tail : List ℕ → List ℕ
    tail [] = []
    tail (x ∷ xs) = xs
