-- ===== src/Pool/Weighed.antt =====
-- A pool whose connections carry a weight: the calls of the pool move connections about and lose none, so
-- the weight of a pool only grows where the operations of its connections do not lower it.
use mathlib.Core.List.{Perm}
use asabru_engine.Common.{ℕ, ◌+◌, ◌≤◌, ◌==◌, ◌≡◌, ◌∙◌, arith}
use asabru_engine.Common.{Option, none, some, List, [], ◌∷◌}
use asabru_engine.Common.{Bool-cases, Option-cases, inl, inr}
use asabru_engine.Pool.{
  Node, ConnectionPool, ConnectionProxy, ConnectionOps, extract, check_connect, scan_idle, beat_all,
  hand_out, get_connection, release_connection, release_proxy, destroy_proxy, heart_beat,
}
use asabru_engine.Pool.Keys.{
  weigh, extract-weigh, insert-weigh, weigh-Perm, count, count_found, scan_idle-count, count-Perm,
}
use asabru_engine.Pool.Owned.{
  Call, gets, beats, releases, destroys, IsDistinct, extract-absent, found-absent,
  get_connection_cases, step, run, step-owned,
}

module _ {C : Type 0} (w : C → ℕ) where
  abbrev pub total : List (Node C) → ℕ
  total m = weigh (λ node. w node.1) m

  abbrev pub pool_total : ConnectionPool C → ℕ
  pool_total p = total p.idle + total p.busy

  abbrev total_found : Option (Node C) → ℕ
  total_found none = 0
  total_found (some (k, c)) = w c

  release_connection-total :
      (k : ℕ) (p : ConnectionPool C)
      → IsDistinct p
      → pool_total (release_connection k p) ≡ pool_total p
  unfolding release_connection
  release_connection-total k p d = elim (Bool-cases (k == 0)) [
    | inl e ↦ rw e
    | inr e ↦ elim (Option-cases (extract k p.busy)) [
      | inl miss ↦ rw (e, miss)
      | inr (((j, c), rest), hit) ↦
          rw (e, hit)
            (omega (
              arith,
              insert-weigh (λ node. w node.1) (j, c) p.idle (extract-absent p k j c rest d hit),
              extract-weigh (λ node. w node.1) k p.busy (j, c) rest hit,
            ))
    ]
  ]

  destroy_proxy-total :
      (x : ConnectionProxy) (p : ConnectionPool C)
      → IsDistinct p
      → pool_total (destroy_proxy x p) ≡ pool_total p
  unfolding destroy_proxy
  destroy_proxy-total x p d = elim (Bool-cases x.m_pool) [
    | inl e ↦ rw e (release_connection-total x.m_connection p d)
    | inr e ↦ rw e
  ]

  hand_out-total :
      (p : ConnectionPool C) (found : Option (Node C)) (rest : List (Node C))
      → IsDistinct p
      → ((j : ℕ) → count_found j found + count j rest ≡ count j p.idle)
      → total p.idle ≤ total_found found + total rest
      → pool_total p ≤ pool_total (hand_out p found rest).1
  unfolding hand_out
  hand_out-total p none rest d kept more = omega (arith, more)
  hand_out-total p (some (k, c)) rest d kept more = omega (
    arith,
    more,
    insert-weigh (λ node. w node.1) (k, c) p.busy (found-absent p k c rest d (kept k)),
  )

  -- No method of a connection lowers its weight.
  pub record Grows (ops : ConnectionOps C) : Type 0 where
    pub heart_beat_grows : (c : C) → w c ≤ w (ops.heart_beat c).1
    pub is_healthy_grows : (c : C) → w c ≤ w (ops.is_healthy c).1
    pub connect_grows : (c : C) → w c ≤ w (ops.connect c).1

  module _ (ops : ConnectionOps C) (grows : Grows ops) where
    check_connect-grows : (c : C) → w c ≤ w (check_connect ops c).1
    unfolding check_connect
    check_connect-grows c =
        ground (arith, grows.is_healthy_grows c, grows.connect_grows (ops.is_healthy c).1)

    scan_idle-grows :
        (nodes : List (Node C))
        → let r = scan_idle ops nodes in total nodes ≤ total_found r.0 + total r.1
    unfolding scan_idle
    scan_idle-grows [] = omega arith
    scan_idle-grows ((k, c) ∷ nodes) = elim (Bool-cases (check_connect ops c).0) [
      | inl e ↦ rw e (omega (arith, check_connect-grows c))
      | inr e ↦ rw e (omega (arith, check_connect-grows c, scan_idle-grows nodes))
    ]

    beat_all-grows : (nodes : List (Node C)) → total nodes ≤ total (beat_all ops nodes)
    unfolding beat_all
    beat_all-grows [] = omega arith
    beat_all-grows ((k, c) ∷ nodes) = ground (arith, grows.heart_beat_grows c, beat_all-grows nodes)

    module _ (walk : List (Node C) → List (Node C))
        (walks : (nodes : List (Node C)) → Perm (walk nodes) nodes) where
      walked : (nodes : List (Node C)) → total (walk nodes) ≡ total nodes
      walked nodes = weigh-Perm (λ node. w node.1) (walks nodes)

      get_connection-grows :
          (p : ConnectionPool C)
          → IsDistinct p
          → pool_total p ≤ pool_total (get_connection ops walk p).1
      get_connection-grows p d = elim (get_connection_cases ops walk p) [
        | inl (_, e) ↦ rw e (omega arith)
        | inr (_, e) ↦ rw e (
            hand_out-total p _ _ d
              (λ j. scan_idle-count ops j (walk p.idle) ∙ count-Perm j (walks p.idle))
              (omega (arith, walked p.idle, scan_idle-grows (walk p.idle))))
      ]

      step-grows :
          (p : ConnectionPool C) (call : Call)
          → IsDistinct p
          → pool_total p ≤ pool_total (step ops walk walks p call)
      unfolding step release_proxy heart_beat
      step-grows p gets d = get_connection-grows p d
      step-grows p (releases x) d = omega (arith, release_connection-total x.m_connection p d)
      step-grows p (destroys x) d = omega (arith, destroy_proxy-total x p d)
      step-grows p beats d = omega (arith, walked p.idle, beat_all-grows (walk p.idle))

      -- Whatever the calls, the weight of a pool with distinct addresses never gets less.
      pub run-grows :
          (p : ConnectionPool C) (calls : List Call)
          → IsDistinct p
          → pool_total p ≤ pool_total (run ops walk walks p calls)
      unfolding run
      run-grows p [] d = omega arith
      run-grows p (call ∷ calls) d =
          let next : IsDistinct (step ops walk walks p call) =
            λ i. omega (arith, step-owned ops walk walks i p call d, d i) in
          omega (arith, step-grows p call d, run-grows (step ops walk walks p call) calls next)
