-- ===== src/Pool/Owned.antt =====
-- The pool owns the same connections before and after every call, each once.
use asabru_engine.Common.{ℕ, ◌+◌, ◌≤◌, ◌==◌, ◌≡◌, ◌≢◌, refl, ◌∙◌, arith}
use asabru_engine.Common.{Option, none, some, List, [], ◌∷◌}
use asabru_engine.Common.{List-cases, ◌⊎◌, Bool-cases, Option-cases, inl, inr}
use mathlib.Core.List.{Perm}
use asabru_engine.Pool.{
  Node, ConnectionPool, ConnectionProxy, ConnectionOps, extract, scan_idle, hand_out,
  get_connection, release_connection, release_proxy, destroy_proxy, heart_beat, null_proxy,
}
use asabru_engine.Pool.Keys.{
  count, count_found, owned, extract-count, insert-count, count-Perm, scan_idle-count,
  beat_all-count,
}

-- A call, with the proxy that it is made through. A proxy is any pair, also one left over from an
-- earlier lease.
pub data Call : Type 0 where
  gets beats : Call
  releases destroys : ConnectionProxy → Call

module _ {C : Type 0} where
  -- No address occurs twice.
  abbrev pub IsDistinct : ConnectionPool C → Type 0
  IsDistinct p = (k : ℕ) → owned k p ≤ 1

  -- What is busy is not idle, and what the walk finds is not busy.
  pub extract-absent :
      (p : ConnectionPool C) (k j : ℕ) (c : C) (rest : List (Node C))
      → IsDistinct p
      → extract k p.busy ≡ some ((j, c), rest)
      → count j p.idle ≡ 0
  extract-absent p k j c rest d hit =
      ground (arith, d j, (extract-count j k p.busy (j, c) rest hit).1)

  pub found-absent :
      (p : ConnectionPool C) (k : ℕ) (c : C) (rest : List (Node C))
      → IsDistinct p
      → count_found k (some (k, c)) + count k rest ≡ count k p.idle
      → count k p.busy ≡ 0
  found-absent p k c rest d kept = ground (arith, d k, kept)

  pub release_connection-owned :
      (i k : ℕ) (p : ConnectionPool C) → IsDistinct p → owned i (release_connection k p) ≡ owned i p
  unfolding release_connection
  release_connection-owned i k p d = elim (Bool-cases (k == 0)) [
    | inl e ↦ rw e
    | inr e ↦ elim (Option-cases (extract k p.busy)) [
      | inl miss ↦ rw (e, miss)
      | inr (((j, c), rest), hit) ↦
          rw (e, hit)
            (omega (
              arith,
              insert-count i (j, c) p.idle (extract-absent p k j c rest d hit),
              (extract-count i k p.busy (j, c) rest hit).1,
            ))
    ]
  ]

  pub destroy_proxy-owned :
      (x : ConnectionProxy) (i : ℕ) (p : ConnectionPool C)
      → IsDistinct p
      → owned i (destroy_proxy x p) ≡ owned i p
  unfolding destroy_proxy
  destroy_proxy-owned x i p d = elim (Bool-cases x.m_pool) [
    | inl e ↦ rw e (release_connection-owned i x.m_connection p d)
    | inr e ↦ rw e
  ]

  pub hand_out-owned :
      (i : ℕ) (p : ConnectionPool C) (found : Option (Node C)) (rest : List (Node C))
      → IsDistinct p
      → ((j : ℕ) → count_found j found + count j rest ≡ count j p.idle)
      → owned i (hand_out p found rest).1 ≡ owned i p
  unfolding hand_out
  hand_out-owned i p none rest d kept = omega (arith, kept i)
  hand_out-owned i p (some (k, c)) rest d kept =
      omega (arith, kept i, insert-count i (k, c) p.busy (found-absent p k c rest d (kept k)))

  module _ (ops : ConnectionOps C) (walk : List (Node C) → List (Node C)) where
    -- An empty pool answers at once; any other tries its nodes in the order of the walk.
    pub get_connection_cases :
        (p : ConnectionPool C)
        → let r = scan_idle ops (walk p.idle) in
          ((p.idle ≡ []) × (get_connection ops walk p ≡ (null_proxy, p)))
          ⊎ ((p.idle ≢ []) × (get_connection ops walk p ≡ hand_out p r.0 r.1))
    unfolding get_connection
    get_connection_cases p = elim (List-cases p.idle) [
      | inl e ↦ inl (e, ground arith)
      | inr (node, nodes, e) ↦ inr (ground arith, ground arith)
    ]

  module _ (ops : ConnectionOps C) (walk : List (Node C) → List (Node C))
      (walks : (nodes : List (Node C)) → Perm (walk nodes) nodes) where
    pub get_connection-owned :
        (i : ℕ) (p : ConnectionPool C)
        → IsDistinct p
        → owned i (get_connection ops walk p).1 ≡ owned i p
    get_connection-owned i p d = elim (get_connection_cases ops walk p) [
      | inl (_, e) ↦ rw e
      | inr (_, e) ↦ rw e (
          hand_out-owned i p _ _ d
            λ j. scan_idle-count ops j (walk p.idle) ∙ count-Perm j (walks p.idle))
    ]

    pub heart_beat-owned :
        (i : ℕ) (p : ConnectionPool C) → owned i (heart_beat ops walk p) ≡ owned i p
    unfolding heart_beat
    heart_beat-owned i p =
        omega (arith, beat_all-count ops i (walk p.idle), count-Perm i (walks p.idle))

    -- The calls of the pool's methods that change it.
    unfoldable pub step : ConnectionPool C → Call → ConnectionPool C
    step p gets = (get_connection ops walk p).1
    step p (releases x) = release_proxy x p
    step p (destroys x) = destroy_proxy x p
    step p beats = heart_beat ops walk p

    unfoldable pub run : ConnectionPool C → List Call → ConnectionPool C
    run p [] = p
    run p (call ∷ calls) = run (step p call) calls

    pub step-owned :
        (i : ℕ) (p : ConnectionPool C) (call : Call)
        → IsDistinct p
        → owned i (step p call) ≡ owned i p
    unfolding step release_proxy
    step-owned i p gets d = get_connection-owned i p d
    step-owned i p (releases x) d = release_connection-owned i x.m_connection p d
    step-owned i p (destroys x) d = destroy_proxy-owned x i p d
    step-owned i p beats d = heart_beat-owned i p

    -- Whatever the sequence of calls, with whatever proxies, stale ones included, a pool whose addresses
    -- are distinct goes on owning exactly the same connections, each of them once, idle or busy.
    pub run-owned :
        (p : ConnectionPool C) (calls : List Call)
        → IsDistinct p
        → ((i : ℕ) → owned i (run p calls) ≡ owned i p) × IsDistinct (run p calls)
    unfolding run
    run-owned p [] d = (λ i. refl, d)
    run-owned p (call ∷ calls) d =
        let next : IsDistinct (step p call) = λ i. omega (arith, step-owned i p call d, d i) in
        let (same, distinct) = run-owned (step p call) calls next in
        (λ i. same i ∙ step-owned i p call d, distinct)
