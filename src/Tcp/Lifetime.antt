-- ===== src/Tcp/Lifetime.antt =====
-- A pool of TCP connections from the factory to its destructor.
use asabru_engine.Common.{◌^◌, ℕ, zero, suc, ◌+◌, ◌≤◌, ◌<◌, ◌≡◌, ◌≢◌, ap, arith}
use asabru_engine.Common.{Bool, Bool-cases, inl, inr, true, Option, List, length, some, ok, ◌==◌}
use mathlib.Core.List.{Perm}
use asabru_engine.Proxy.{Text, done}
use asabru_engine.Pool.{ConnectionOps, ConnectionPool, Node, new_pool, size_idle}
use asabru_engine.Pool.Owned.{Call, run}
use asabru_engine.Pool.Weighed.{total}
use asabru_engine.Client.{Network, server_name_room}
use asabru_engine.Client.Connecting.{Resolves}
use asabru_engine.Tcp.{TcpConnection, create_pool, destroy_pool}
use asabru_engine.Tcp.Lending.{IsTcp}
use asabru_engine.Tcp.Factory.{
  made, nodes_from, made_pool, made_pool-IsDistinct, weigh-made_pool, create_pool_lem,
  size_idle-made_pool,
}
use asabru_engine.Tcp.Shutdown.{holds, times, destroy_pool-closes}

module _ (named : Text → Bool) (descriptor address : ℕ → ℕ) (name : Text) (port : ℕ)
    (asked : named name ≡ true) where
  holds-made : (i : ℕ) → holds named (descriptor i) (made descriptor name port i) ≡ 1
  holds-made i = rw asked (ground arith)

  total-nodes_from :
      (i n k : ℕ)
      → k ≤ i
      → i < k + n
      → 1 ≤ total (holds named (descriptor i)) (nodes_from descriptor address name port n k)
  total-nodes_from i zero k low high = absurd (omega (arith, low, high))
  total-nodes_from i (suc n) k low high = elim (Bool-cases (k == i)) [
    | inl here ↦
        let same : k ≡ i = ground arith in
        omega (
          arith,
          holds-made i,
          ap (λ j. holds named (descriptor i) (made descriptor name port j)) same,
        )
    | inr other ↦
        let later : k < i = ground arith in
        omega (arith, total-nodes_from i n (k + 1) (omega (arith, later)) (omega (arith, high)))
  ]

-- Asked for fewer than 2 ^ 16 connections, the factory makes, for a dotted host that resolves and can be connected to, with a descriptor for each
-- connection and distinct addresses for them, a pool with as many idle connections as were asked for.
-- Whatever calls of the pool follow, each of these descriptors was given to `close` when the destructor
-- of the pool has run, in whatever order the maps are walked: if hosts of a kind that has this host among
-- it are dotted and resolve while the calls are made, whether or not they can be connected to then.
pub create_pool-closes :
    (named : Text → Bool) (net : Network) (fresh : TcpConnection → Option ℕ)
    (ops : ConnectionOps TcpConnection)
    → IsTcp net fresh ops
    → ((host : Text) → named host ≡ true → (a : ℕ) × Resolves net host a)
    → (walk : List (Node TcpConnection) → List (Node TcpConnection))
      (walks : (nodes : List (Node TcpConnection)) → Perm (walk nodes) nodes) (at_first : Network)
      (descriptor address : ℕ → ℕ) (name : Text) (port a : ℕ)
    → ((i j : ℕ) → i < j → address i ≢ address j)
    → length name < server_name_room
    → Resolves at_first name a
    → at_first.connects a port ≡ true
    → named name ≡ true
    → (n : ℕ) → n < 2 ^ 16
    → (p : ConnectionPool TcpConnection) × (create_pool at_first
          (λ k. some (descriptor k))
          address
          name
          port
          n
        ≡ ok (done p))
      × (size_idle p ≡ n)
      × ((i : ℕ) (calls : List Call)
          → i < n
          → 1 ≤ times (descriptor i) (destroy_pool walk (run ops walk walks p calls)))
unfolding new_pool
create_pool-closes named net fresh ops tcp resolves walk walks at_first descriptor address name port
      a distinct short first answers asked n small =
    let p = made_pool descriptor address name port n in
    (
      p,
      create_pool_lem at_first descriptor address name port a distinct short first answers n small,
      size_idle-made_pool at_first descriptor address name port a distinct short first answers n,
      λ i calls below. omega (
        arith,
        total-nodes_from named descriptor address name port asked i n 0 (omega arith)
            (omega (arith, below)),
        weigh-made_pool at_first descriptor address name port a distinct short first answers
            (λ node. holds named (descriptor i) node.1) n,
        destroy_pool-closes named (descriptor i) net fresh ops tcp resolves walk walks p calls (
            made_pool-IsDistinct at_first descriptor address name port a distinct short first
              answers n),
      ),
    )
