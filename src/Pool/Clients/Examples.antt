-- ===== src/Pool/Clients/Examples.antt =====
-- One client's proxy from its making to its end: it is got, moved into another object, and destroyed.
use asabru_engine.Common.{◌≡◌, ◌≢◌, ◌≤◌, refl, ℕ, Bool, true, false, List, [], ◌∷◌}
use mathlib.Core.List.Perm
use asabru_engine.Pool.{
  Node, ConnectionPool, ConnectionProxy, ConnectionOps, returned, new_pool, get_connection,
  move_proxy, destroy_proxy, valid,
}
use asabru_engine.Pool.Keys.{count}
use asabru_engine.Pool.Clients.{
  Taken, held, World, start_world, gets, moves, destroys, Reach, here, later,
}
use asabru_engine.Pool.Clients.Lent.{Reach-one_holder}

abbrev always_up : ConnectionOps Bool
always_up = record {
  heart_beat = λ c. (returned true, c);
  is_healthy = λ c. (returned c, c);
  connect = λ c. (returned true, true);
}

abbrev in_order : List (Node Bool) → List (Node Bool)
in_order nodes = nodes

abbrev some_connections : List (Node Bool)
some_connections = (8, false) ∷ (16, true) ∷ []

abbrev got : ConnectionProxy × ConnectionPool Bool
got = get_connection always_up in_order (new_pool some_connections)

abbrev given_back : World Bool
given_back = record {
  pool = destroy_proxy (move_proxy got.0).0 got.1;
  proxies = (move_proxy got.0).1 ∷ [];
}

given_back-Reach : Reach always_up in_order (start_world some_connections) given_back
given_back-Reach =
    later (later (later here gets) (moves got.0 ([], [], refl, refl)))
      (destroys (move_proxy got.0).0 ([], (move_proxy got.0).1 ∷ [], refl, refl))

Reach-one_holder_example :
    ((k : ℕ)
      → k ≢ 0
      → (held k given_back.proxies ≡ count k given_back.pool.busy)
        × (held k given_back.proxies ≤ 1))
    × ((x : ConnectionProxy) (rest : List ConnectionProxy)
        → Taken x given_back.proxies rest
        → x.m_connection ≢ 0
        → valid x given_back.pool ≡ true)
    × (given_back.proxies ≡ []
        → (given_back.pool.busy ≡ [])
          × ((k : ℕ) → count k given_back.pool.idle ≡ count k (new_pool some_connections).idle))
Reach-one_holder_example =
    Reach-one_holder always_up in_order (λ m. Perm.refl m) some_connections given_back refl
      given_back-Reach
