-- ===== src/Pool/Examples.antt =====
-- The pool's theorems on small pools. A connection is a Boolean, whether it is up; one that is down
-- throws when it is told to connect.
use asabru_engine.Common.{ℕ, ◌≡◌, refl, arith}
use asabru_engine.Common.{Bool, true, false, Option, List, [], ◌∷◌}
use mathlib.Core.List.Perm
use asabru_engine.Pool.{
  Node, ConnectionPool, ConnectionProxy, ConnectionOps, threw, returned, has_key, hand_out,
  get_connection, valid, destroy_proxy, release_proxy, scan_idle, check_connect, insert,
  release_connection, extract, heart_beat, beat_all,
}
use asabru_engine.Pool.Keys.{count, owned}
use asabru_engine.Pool.Owned.{
  IsDistinct, Call, gets, beats, releases, destroys, run, step, run-owned,
}
use asabru_engine.Pool.Abstract.{MovesAll, abstract, run-MovesAll}
use asabru_engine.Pool.Lease.{Picks, lease, lend, get_connection-Picks}
use asabru_engine.Pool.Proxies.{stale_proxy-steals}

abbrev ops : ConnectionOps Bool
ops = record {
  heart_beat = λ c. (returned true, c);
  is_healthy = λ c. (returned c, c);
  connect = λ c. (threw, c);
}

abbrev in_order : List (Node Bool) → List (Node Bool)
in_order nodes = nodes

abbrev some_pool : ConnectionPool Bool
some_pool = record { idle = (8, false) ∷ (16, true) ∷ []; busy = (24, true) ∷ (32, true) ∷ [] }

abbrev holder : ConnectionProxy
holder = record { m_pool = true; m_connection = 24 }

abbrev other : ConnectionProxy
other = record { m_pool = true; m_connection = 32 }

some_pool-IsDistinct : IsDistinct some_pool
some_pool-IsDistinct k = ground arith

abbrev some_calls : List Call
some_calls = gets ∷ releases holder ∷ beats ∷ destroys holder ∷ gets ∷ []

run-owned_example :
    ((i : ℕ)
      → owned i (run ops in_order (λ m. Perm.refl m) some_pool some_calls) ≡ owned i some_pool)
    × IsDistinct (run ops in_order (λ m. Perm.refl m) some_pool some_calls)
run-owned_example =
    run-owned ops in_order (λ m. Perm.refl m) some_pool some_calls some_pool-IsDistinct

run-MovesAll_example :
    MovesAll some_calls
      (abstract some_pool)
      (abstract (run ops in_order (λ m. Perm.refl m) some_pool some_calls))
run-MovesAll_example =
    run-MovesAll ops in_order (λ m. Perm.refl m) some_pool some_calls some_pool-IsDistinct

get_connection-Picks_example :
    (found : Option (Node Bool)) × (rest : List (Node Bool)) × Picks ops
      (in_order some_pool.idle)
      found
      rest
    × (get_connection ops in_order some_pool
        ≡ (lease found, record { idle = rest; busy = lend found some_pool.busy }))
get_connection-Picks_example = get_connection-Picks ops in_order some_pool (λ e. cc)

abbrev healthy_pool : ConnectionPool Bool
healthy_pool = record { idle = (16, true) ∷ []; busy = (24, true) ∷ [] }

abbrev lent_out : ConnectionPool Bool
lent_out = record { idle = []; busy = (16, true) ∷ (24, true) ∷ [] }

abbrev lent_proxy : ConnectionProxy
lent_proxy = record { m_pool = true; m_connection = 16 }

healthy_pool-IsDistinct : IsDistinct healthy_pool
healthy_pool-IsDistinct k = ground arith

lent_once : get_connection ops in_order healthy_pool ≡ (lent_proxy, lent_out)
unfolding get_connection scan_idle check_connect hand_out insert has_key
lent_once = refl

lent_again :
    get_connection ops in_order
      (run ops in_order (λ m. Perm.refl m) (release_proxy lent_proxy lent_out) (beats ∷ []))
    ≡ (lent_proxy, lent_out)
unfolding get_connection scan_idle check_connect hand_out insert has_key release_proxy
lent_again =
    unfold release_connection in
    unfold extract in unfold run in unfold step in unfold heart_beat in unfold beat_all in refl

stale_proxy-steals_example :
    (valid lent_proxy lent_out ≡ true)
    × (valid lent_proxy (destroy_proxy lent_proxy lent_out) ≡ false)
    × (count 16 (destroy_proxy lent_proxy lent_out).idle ≡ 1)
stale_proxy-steals_example =
    stale_proxy-steals ops in_order (λ m. Perm.refl m) healthy_pool lent_proxy lent_proxy lent_out
      lent_out (beats ∷ []) healthy_pool-IsDistinct lent_once (λ e. omega (arith, e)) lent_again
      refl
