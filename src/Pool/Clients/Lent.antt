-- ===== src/Pool/Clients/Lent.antt =====
-- In every world that clients of the pool reach, each connection in use has one holder.
use asabru_engine.Common.{
  ℕ, zero, suc, ◌+◌, ◌≤◌, ◌==◌, ◌≡◌, ◌≢◌, refl, ap, ◌∙◌, if◌then◌else◌, arith,
}
use asabru_engine.Common.{
  Bool, true, false, Option, none, some, List, [], Bool-cases, Option-cases, inl, inr,
}
use mathlib.Core.List.{Perm}
use asabru_engine.Pool.{
  Node, ConnectionPool, ConnectionProxy, ConnectionOps, extract, hand_out, get_connection,
  release_connection, destroy_proxy, heart_beat, move_proxy, move_assign, valid, new_pool,
}
use asabru_engine.Pool.Keys.{
  count, count_found, owned, extract-count, insert-count, count-Perm, scan_idle-count,
}
use asabru_engine.Pool.Owned.{
  IsDistinct, destroy_proxy-owned, get_connection_cases, get_connection-owned, heart_beat-owned,
}
use asabru_engine.Pool.Clients.Counts.{
  total-Taken, extract-none, has_key-false, fill_idle-once, fill_idle-avoids, none_of_each,
}
use asabru_engine.Pool.Clients.{
  Taken, holds, orphan, total, held, World, start_world, Uses, gets, moves, assigns, destroys,
  beats, Reach, here, later,
}

module _ {C : Type 0} where
  -- Each connection in use is held by one proxy, which knows the pool, and each other by none.
  pub record IsLent (w : World C) : Type 0 where
    pub distinct : IsDistinct w.pool
    pub no_null : owned 0 w.pool ≡ 0
    pub lent : (k : ℕ) → k ≢ 0 → held k w.proxies ≡ count k w.pool.busy
    pub no_orphan : total orphan w.proxies ≡ 0

  module _ (ops : ConnectionOps C) (walk : List (Node C) → List (Node C))
      (walks : (nodes : List (Node C)) → Perm (walk nodes) nodes) where
    hand_out-lent :
        (p : ConnectionPool C) (found : Option (Node C)) (rest : List (Node C)) (k : ℕ)
        → IsDistinct p
        → owned 0 p ≡ 0
        → ((j : ℕ) → count_found j found + count j rest ≡ count j p.idle)
        → k ≢ 0
        → let (x, p') = hand_out p found rest in
          (holds k x + count k p.busy ≡ count k p'.busy) × (orphan x ≡ 0)
    unfolding hand_out
    hand_out-lent p none rest k d z kept nonzero = ground arith
    hand_out-lent p (some (j, c)) rest k d z kept nonzero =
        (omega (arith, insert-count k (j, c) p.busy absent), refl)
      where
        absent : count j p.busy ≡ 0
        absent = ground (arith, d j, kept j)

    get_connection-lent :
        (p : ConnectionPool C) (k : ℕ)
        → IsDistinct p
        → owned 0 p ≡ 0
        → k ≢ 0
        → let (x, p') = get_connection ops walk p in
          (holds k x + count k p.busy ≡ count k p'.busy) × (orphan x ≡ 0)
    get_connection-lent p k d z nonzero = elim (get_connection_cases ops walk p) [
      | inl (_, e) ↦ rw e (ground arith)
      | inr (_, e) ↦ rw e (
          hand_out-lent p _ _ k d z
            (λ j. scan_idle-count ops j (walk p.idle) ∙ count-Perm j (walks p.idle)) nonzero)
    ]

  -- Taking back a connection in use takes one out of the busy map.
  release_connection-lent :
      (k i : ℕ) (p : ConnectionPool C)
      → k ≢ 0
      → 1 ≤ count k p.busy
      → count i p.busy ≡ (if k == i then 1 else 0) + count i (release_connection k p).busy
  unfolding release_connection
  release_connection-lent k i p nonzero used = elim (Option-cases (extract k p.busy)) [
    | inl miss ↦ absurd (omega (arith, extract-none k p.busy miss))
    | inr ((node, rest), hit) ↦ ground (arith, hit, extract-count i k p.busy node rest hit)
  ]

  release_null : (p : ConnectionPool C) → release_connection 0 p ≡ p
  unfolding release_connection
  release_null p = refl

  lent_before :
      (knows : Bool) (k i : ℕ) (p : ConnectionPool C)
      → ◌≡◌ {A = ℕ} (if knows then 0 else if k == 0 then 0 else 1) 0
      → (k ≢ 0 → 1 ≤ count k p.busy)
      → i ≢ 0
      → count i p.busy
        ≡ (if k == i then 1 else 0) + count i (if knows then release_connection k p else p).busy
  lent_before true zero i p home used nonzero = rw (release_null p) (ground arith)
  lent_before false zero i p home used nonzero = ground arith
  lent_before true (suc k) i p home used nonzero =
      release_connection-lent (suc k) i p (λ e. omega (arith, e)) (used (λ e. omega (arith, e)))
  lent_before false (suc k) i p home used nonzero = ground arith

  -- A proxy that dies gives back what it holds.
  destroy_proxy-lent :
      (x : ConnectionProxy) (i : ℕ) (p : ConnectionPool C)
      → orphan x ≡ 0
      → (x.m_connection ≢ 0 → 1 ≤ count x.m_connection p.busy)
      → i ≢ 0
      → count i p.busy ≡ holds i x + count i (destroy_proxy x p).busy
  unfolding destroy_proxy
  destroy_proxy-lent x i p home used nonzero =
      lent_before x.m_pool x.m_connection i p home used nonzero

  in_use :
      (w : World C) (x : ConnectionProxy) {rest : List ConnectionProxy}
      → Taken x w.proxies rest
      → IsLent w
      → x.m_connection ≢ 0
      → 1 ≤ count x.m_connection w.pool.busy
  in_use w x t l nonzero =
      ground (arith, total-Taken (holds x.m_connection) x t, l.lent x.m_connection nonzero)

  module _ (ops : ConnectionOps C) (walk : List (Node C) → List (Node C))
      (walks : (nodes : List (Node C)) → Perm (walk nodes) nodes) where
    -- No use adds a connection to the pool or takes one from it.
    Uses-owned :
        {w v : World C}
        → Uses ops walk w v
        → IsDistinct w.pool
        → (k : ℕ) → owned k v.pool ≡ owned k w.pool
    Uses-owned {w} gets d k = get_connection-owned ops walk walks k w.pool d
    Uses-owned (moves x t) d k = refl
    Uses-owned (assigns x y t u free) d k = refl
    Uses-owned {w} (destroys x t) d k = destroy_proxy-owned x k w.pool d
    Uses-owned {w} beats d k = heart_beat-owned ops walk walks k w.pool

    Uses-lent :
        {w v : World C}
        → Uses ops walk w v
        → IsLent w
        → (k : ℕ) → k ≢ 0
        → held k v.proxies ≡ count k v.pool.busy
    unfolding move_proxy move_assign heart_beat
    Uses-lent {w} gets l k nonzero = omega (
      arith,
      get_connection-lent ops walk walks w.pool k l.distinct l.no_null nonzero,
      l.lent k nonzero,
    )
    Uses-lent (moves x t) l k nonzero = ground (arith, total-Taken (holds k) x t, l.lent k nonzero)
    Uses-lent (assigns x y t u free) l k nonzero =
        ground (arith, total-Taken (holds k) x t, total-Taken (holds k) y u, l.lent k nonzero)
    Uses-lent {w} (destroys x t) l k nonzero =
        let home : orphan x ≡ 0 = omega (arith, total-Taken orphan x t, l.no_orphan) in
        omega (
          arith,
          total-Taken (holds k) x t,
          l.lent k nonzero,
          destroy_proxy-lent x k w.pool home (in_use w x t l) nonzero,
        )
    Uses-lent beats l k nonzero = l.lent k nonzero

    Uses-no_orphan : {w v : World C} → Uses ops walk w v → IsLent w → total orphan v.proxies ≡ 0
    unfolding move_proxy move_assign
    Uses-no_orphan {w} gets l = omega (
      arith,
      get_connection-lent ops walk walks w.pool 1 l.distinct l.no_null (λ e. omega (arith, e)),
      l.no_orphan,
    )
    Uses-no_orphan (moves x t) l = ground (arith, total-Taken orphan x t, l.no_orphan)
    Uses-no_orphan (assigns x y t u free) l =
        ground (arith, total-Taken orphan x t, total-Taken orphan y u, l.no_orphan)
    Uses-no_orphan (destroys x t) l = omega (arith, total-Taken orphan x t, l.no_orphan)
    Uses-no_orphan beats l = l.no_orphan

    Reach-IsLent :
        {w v : World C}
        → Reach ops walk w v
        → IsLent w
        → IsLent v × ((k : ℕ) → owned k v.pool ≡ owned k w.pool)
    Reach-IsLent here l = (l, λ k. refl)
    Reach-IsLent (later reach one) l =
        let (l', same) = Reach-IsLent reach l in
        let kept = Uses-owned one l'.distinct in
        (
          record {
            distinct = λ k. omega (arith, kept k, l'.distinct k);
            no_null = omega (arith, kept 0, l'.no_null);
            lent = Uses-lent one l';
            no_orphan = Uses-no_orphan one l';
          },
          λ k. kept k ∙ same k,
        )

  start_world-IsLent :
      (connections : List (Node C)) → count 0 connections ≡ 0 → IsLent (start_world connections)
  unfolding new_pool
  start_world-IsLent connections z = record {
    distinct = λ k. omega (arith, fill_idle-once k connections [] (λ j. omega arith));
    no_null = omega (arith, fill_idle-avoids 0 connections [] (omega (arith, z)));
    lent = λ k nonzero. refl;
    no_orphan = refl;
  }

  holder-valid :
      (w : World C) (x : ConnectionProxy) {rest : List ConnectionProxy}
      → Taken x w.proxies rest
      → IsLent w
      → x.m_connection ≢ 0
      → valid x w.pool ≡ true
  unfolding valid
  holder-valid w x t l nonzero = ground (
    arith,
    total-Taken orphan x t,
    l.no_orphan,
    in_use w x t l nonzero,
    has_key-false x.m_connection w.pool.busy,
  )

  none_lent : (w : World C) → w.proxies ≡ [] → IsLent w → w.pool.busy ≡ []
  none_lent w gone l = none_of_each w.pool.busy λ k. elim (Bool-cases (k == 0)) [
    | inl e ↦ ground (arith, l.no_null)
    | inr e ↦ omega (arith, l.lent k (ground arith), ap (held k) gone)
  ]

module _ {C : Type 0} (ops : ConnectionOps C) (walk : List (Node C) → List (Node C))
    (walks : (nodes : List (Node C)) → Perm (walk nodes) nodes) where
  -- Clients that keep to the proxies of a pool with no null address, in whatever order it is walked, and
  -- that assign only to proxies that hold nothing: at every time each connection is held by as many proxies that are alive as it is in use, one or none;
  -- each proxy that holds one is valid; and when no proxy is alive any more, no connection is in use and
  -- all that the pool began with are idle.
  pub Reach-one_holder :
      (connections : List (Node C)) (w : World C)
      → count 0 connections ≡ 0
      → Reach ops walk (start_world connections) w
      → ((k : ℕ) → k ≢ 0 → (held k w.proxies ≡ count k w.pool.busy) × (held k w.proxies ≤ 1))
        × ((x : ConnectionProxy) (rest : List ConnectionProxy)
            → Taken x w.proxies rest
            → x.m_connection ≢ 0
            → valid x w.pool ≡ true)
        × (w.proxies ≡ []
            → (w.pool.busy ≡ [])
              × ((k : ℕ) → count k w.pool.idle ≡ count k (new_pool connections).idle))
  unfolding new_pool
  Reach-one_holder connections w z reach =
      let (l, same) = Reach-IsLent ops walk walks reach (start_world-IsLent connections z) in
      (
        λ k nonzero. (l.lent k nonzero, omega (arith, l.lent k nonzero, l.distinct k)),
        λ x rest t nonzero. holder-valid w x t l nonzero,
        λ gone. (none_lent w gone l, λ k. omega (arith, same k, ap (count k) (none_lent w gone l))),
      )
