-- ===== src/Client/Examples.antt =====
-- The constructor on one state of the network, and the destructor with two files opened between its closes.
use asabru_engine.Common.{
  ℕ, leb, ◌&&◌, ◌≡◌, ◌⊎◌, true, false, [], ◌∷◌, none, some, ok, fault, arith,
}
use asabru_engine.Proxy.{done, thrown}
use asabru_engine.Client.{Network, new_client_socket, is_name}
use asabru_engine.Common.{◌≤◌, ◌<◌, ◌==◌, ◌↔◌, ltb, refl, Bool-cases, inl, inr, if◌then◌else◌}
use asabru_engine.Client.{CClientSocket}
use asabru_engine.Net.Descriptors.{Table, change, close_at, IsLowest, free_below}
use asabru_engine.Client.Closing.{
  close_own, close_base, Opened, nothing, opens, destroy_client_socket-reuse,
}
use asabru_engine.Client.Connecting.{Resolves, Refuses, new_client_socket_cases}

abbrev home : Network
home = record {
  isalpha = λ b. leb 65 b && leb b 122;
  gethostbyname = λ host. some 1;
  create_hostent = λ host. done (some 2);
  connects = λ a port. true;
}

new_client_socket_cases_example :
    ((a : ℕ) × Resolves home (49 ∷ []) a
      × (home.connects a 9000 ≡ true)
      × (new_client_socket home (some 5) (49 ∷ []) 9000
          ≡ ok (
            done
                (record { s = some 5; m_server_name = 49 ∷ []; m_server_port = 9000; closes = [] }),
            [],
          )))
    ⊎ ((((a : ℕ) × (is_name home (49 ∷ []) ≡ true)
            × (home.gethostbyname (49 ∷ []) ≡ some a)
            × (home.connects a 9000 ≡ true))
          ⊎ ((is_name home (49 ∷ []) ≡ false) × (home.create_hostent (49 ∷ []) ≡ done none)))
        × (new_client_socket home (some 5) (49 ∷ []) 9000 ≡ fault))
    ⊎ (Refuses home (49 ∷ []) 9000
        × (new_client_socket home (some 5) (49 ∷ []) 9000 ≡ ok (thrown, some 5 ∷ [])))
new_client_socket_cases_example = new_client_socket_cases home 5 9000 (49 ∷ []) (omega arith)

abbrev some_socket : CClientSocket
some_socket = record { s = some 4; m_server_name = 49 ∷ []; m_server_port = 9000; closes = [] }

-- Open are 0, 1, 2 and the socket.
abbrev some_table : Table
some_table i = if ltb i 3 then some 7 else if i == 4 then some 9 else none

abbrev first_opened : Table
first_opened = change 3 (some 20) (close_at (some 4) some_table)

abbrev both_opened : Table
both_opened = change 4 (some 21) first_opened

both-Opened : Opened (close_own some_socket some_table) 2 both_opened
unfolding close_own
both-Opened = opens 4 21 (opens 3 20 nothing three) four
  where
    three : IsLowest (close_at (some 4) some_table) 3
    three = record { unused = refl; used_below = λ i below. (7, ground arith) }

    lower : (i : ℕ) → i < 4 → (f : ℕ) × (first_opened i ≡ some f)
    lower i below = elim (Bool-cases (ltb i 3)) [
      | inl low ↦ (7, ground arith)
      | inr last ↦ (20, ground arith)
    ]

    four : IsLowest first_opened 4
    four = record { unused = refl; used_below = lower }

destroy_client_socket-reuse_example :
    ((2 ≤ free_below 4 some_table)
      ↔ ((i : ℕ) → close_base 1 some_socket both_opened i ≡ both_opened i))
    × ((free_below 4 some_table < 2)
        ↔ ((f : ℕ) × (both_opened 4 ≡ some f) × (close_base 1 some_socket both_opened 4 ≡ none)))
destroy_client_socket-reuse_example =
    destroy_client_socket-reuse some_socket 4 refl some_table both-Opened
