-- ===== src/Pool/Proxies.antt =====
-- Proxies and the leases behind them: a lease that is used as it should be, an exception during the
-- check, a proxy that outlives its lease, and a proxy that is overwritten.
use mathlib.Core.Path.{subst}
use mathlib.Core.List.{Perm}
use asabru_engine.Common.{ℕ, ◌==◌, ◌≡◌, ◌≢◌, ◌∙◌, refl, sym, ap, arith, Option, none}
use asabru_engine.Common.{true, false, some, List, [], ◌∷◌}
use asabru_engine.Common.{Bool-cases, Option-cases, inl, inr}
use asabru_engine.Pool.{
  Node, ConnectionPool, ConnectionProxy, ConnectionOps, has_key, extract, insert, scan_idle,
  hand_out, get_connection, release_connection, check_connect, valid, threw, returned,
  destroy_proxy, move_assign, release_proxy,
}
use asabru_engine.Pool.Keys.{owned, count, has_key-none, extract-count, insert-count}
use asabru_engine.Pool.Owned.{
  IsDistinct, get_connection_cases, get_connection-owned, release_connection-owned, Call, run,
  run-owned,
}

module _ {C : Type 0} where
  has_key-extract :
      (k : ℕ) (m : List (Node C))
      → has_key k m ≡ true
      → (node : Node C) × (rest : List (Node C)) × (extract k m ≡ some (node, rest))
  unfolding has_key extract
  has_key-extract k [] h = cc
  has_key-extract k ((j, c) ∷ m) h = elim (Bool-cases (j == k)) [
    | inl here ↦ ((j, c), m, rw here)
    | inr other ↦
        let (node, rest, e) = has_key-extract k m (rw other at h) in
        (node, (j, c) ∷ rest, rw (other, e))
  ]

  -- Releasing a busy connection: where every address occurs once, it is idle afterwards, and no longer
  -- busy.
  release-busy :
      (k : ℕ) (p : ConnectionPool C)
      → IsDistinct p
      → k ≢ 0
      → has_key k p.busy ≡ true
      → (count k (release_connection k p).idle ≡ 1)
        × (has_key k (release_connection k p).busy ≡ false)
  unfolding release_connection
  release-busy k p d nonzero h =
      let (node, rest, hit) = has_key-extract k p.busy h in
      rw (some_key, hit) (one_idle node rest hit, none_busy node rest hit)
    where
      some_key : (k == 0) ≡ false
      some_key = ground arith

      none_busy :
          (node : Node C) (rest : List (Node C))
          → extract k p.busy ≡ some (node, rest)
          → has_key k rest ≡ false
      none_busy node rest hit =
          has_key-none k rest (ground (arith, d k, extract-count k k p.busy node rest hit))

      one_idle :
          (node : Node C) (rest : List (Node C))
          → extract k p.busy ≡ some (node, rest)
          → count k (insert node p.idle) ≡ 1
      one_idle node rest hit = ground (
        arith,
        d k,
        d node.0,
        extract-count k k p.busy node rest hit,
        extract-count node.0 k p.busy node rest hit,
        insert-count k node p.idle,
      )

  has_key-extract_other :
      (i k : ℕ) (m : List (Node C)) (node : Node C) (rest : List (Node C))
      → i ≢ k
      → extract k m ≡ some (node, rest)
      → has_key i rest ≡ has_key i m
  unfolding has_key extract
  has_key-extract_other i k [] node rest differ e = cc
  has_key-extract_other i k ((j, c) ∷ m) node rest differ e = elim (Bool-cases (j == k)) [
    | inl here ↦ ground arith
    | inr other ↦ elim (Option-cases (extract k m)) [
      | inl miss ↦ ground arith
      | inr ((found, tail), hit) ↦ ground (arith, has_key-extract_other i k m found tail differ hit)
    ]
  ]

  release-other :
      (i k : ℕ) (p : ConnectionPool C)
      → i ≢ k
      → has_key i (release_connection k p).busy ≡ has_key i p.busy
  unfolding release_connection
  release-other i k p differ = elim (Bool-cases (k == 0)) [
    | inl e ↦ rw e
    | inr e ↦ elim (Option-cases (extract k p.busy)) [
      | inl miss ↦ rw (e, miss)
      | inr ((node, rest), hit) ↦
          rw (e, hit) (has_key-extract_other i k p.busy node rest differ hit)
    ]
  ]

  has_key-insert : (k : ℕ) (c : C) (m : List (Node C)) → has_key k (insert (k, c) m) ≡ true
  unfolding insert has_key
  has_key-insert k c m = elim (Bool-cases (has_key k m)) [
    | inl there ↦ rw (there, insert) there
    | inr missing ↦ rw (missing, insert) (ground arith)
  ]

  hand_out-valid :
      (p : ConnectionPool C) (found : Option (Node C)) (rest : List (Node C))
      → (hand_out p found rest).0.m_connection ≢ 0
      → ((hand_out p found rest).0.m_pool ≡ true)
        × (valid (hand_out p found rest).0 (hand_out p found rest).1 ≡ true)
  unfolding hand_out valid
  hand_out-valid p none rest nonzero = absurd (nonzero refl)
  hand_out-valid p (some (k, c)) rest nonzero = (refl, ground (arith, has_key-insert k c p.busy))

  -- Whoever holds a connection with a valid proxy `y` loses it to the destructor of a proxy that names the
  -- same connection.
  destroy_proxy-shared :
      (x y : ConnectionProxy) (p : ConnectionPool C)
      → IsDistinct p
      → x.m_pool ≡ true
      → x.m_connection ≡ y.m_connection
      → valid y p ≡ true
      → (valid y (destroy_proxy x p) ≡ false) × (count y.m_connection (destroy_proxy x p).idle ≡ 1)
  unfolding destroy_proxy valid
  destroy_proxy-shared x y p d set same v = (rw (set, same, r.1) (ground arith), rw (set, same) r.0)
    where
      r :
          (count y.m_connection (release_connection y.m_connection p).idle ≡ 1)
          × (has_key y.m_connection (release_connection y.m_connection p).busy ≡ false)
      r = release-busy y.m_connection p d (ground arith) (ground arith)

  -- Move assignment overwrites the proxy's old connection without releasing it: when both proxies are
  -- destroyed afterwards, a connection that only the target held is still busy.
  pub move_assign-leaks :
      (x y : ConnectionProxy) (p : ConnectionPool C)
      → valid x p ≡ true
      → x.m_connection ≢ y.m_connection
      → let (x', y') = move_assign x y in
        has_key x.m_connection (destroy_proxy y' (destroy_proxy x' p)).busy ≡ true
  unfolding move_assign destroy_proxy valid
  move_assign-leaks x y p v differ = elim (Bool-cases y.m_pool) [
    | inl e ↦ rw e (release-other x.m_connection y.m_connection p differ ∙ ground arith)
    | inr e ↦ rw e (ground arith)
  ]

module _ {C : Type 0} (ops : ConnectionOps C) (c c' c'' : C) where
  -- A connection that is not healthy and whose `connect` throws passes the check.
  pub check_connect-threw :
      ops.is_healthy c ≡ (returned false, c')
      → ops.connect c' ≡ (threw, c'')
      → check_connect ops c ≡ (true, c'')
  unfolding check_connect
  check_connect-threw sick throws = ground (arith, sick, throws)

  -- So get_connection lends it, as if it were connected, ahead of every connection behind it.
  pub get_connection-lends_broken :
      (walk : List (Node C) → List (Node C)) (p : ConnectionPool C) (k : ℕ) (nodes : List (Node C))
      → p.idle ≢ []
      → walk p.idle ≡ (k, c) ∷ nodes
      → ops.is_healthy c ≡ (returned false, c')
      → ops.connect c' ≡ (threw, c'')
      → get_connection ops walk p ≡ (
        record { m_pool = true; m_connection = k },
        record { idle = nodes; busy = insert (k, c'') p.busy },
      )
  unfolding scan_idle hand_out
  get_connection-lends_broken walk p k nodes some_idle first sick throws =
      elim (get_connection_cases ops walk p) [
        | inl (e, _) ↦ absurd (some_idle e)
        | inr (_, e) ↦ e ∙ rw first (rw (check_connect-threw sick throws, scan_idle))
      ]

module _ {C : Type 0} (ops : ConnectionOps C) (walk : List (Node C) → List (Node C))
    (walks : (nodes : List (Node C)) → Perm (walk nodes) nodes) where
  get_connection-valid :
      (p p' : ConnectionPool C) (x : ConnectionProxy)
      → get_connection ops walk p ≡ (x, p')
      → x.m_connection ≢ 0
      → (x.m_pool ≡ true) × (valid x p' ≡ true)
  get_connection-valid p p' x e nonzero = elim (get_connection_cases ops walk p) [
    | inl (_, empty) ↦ absurd (nonzero (ap (λ r. r.0.m_connection) (sym e ∙ empty)))
    | inr (_, lends) ↦
        let (found, rest) = scan_idle ops (walk p.idle) in
        let same : (x, p') ≡ hand_out p found rest = sym e ∙ lends in
        subst
          (λ (r : ConnectionProxy × ConnectionPool C). (r.0.m_pool ≡ true) × (valid r.0 r.1 ≡ true))
          (sym same)
          (hand_out-valid p found rest
            (λ zero_there. nonzero (ap (λ r. r.0.m_connection) same ∙ zero_there)))
  ]

  -- A client that got the proxy `x` gives its connection back by hand, which leaves `x` as it is. After any
  -- calls, another client is lent the same connection with the proxy `y`. Then the destructor of `x`
  -- takes it from that client: `y` is no longer valid, and the connection is idle, once, ready to be
  -- handed out again.
  pub stale_proxy-steals :
      (p : ConnectionPool C) (x y : ConnectionProxy) (p' p'' : ConnectionPool C) (calls : List Call)
      → IsDistinct p
      → get_connection ops walk p ≡ (x, p')
      → x.m_connection ≢ 0
      → get_connection ops walk (run ops walk walks (release_proxy x p') calls) ≡ (y, p'')
      → x.m_connection ≡ y.m_connection
      → (valid y p'' ≡ true)
        × (valid y (destroy_proxy x p'') ≡ false)
        × (count y.m_connection (destroy_proxy x p'').idle ≡ 1)
  unfolding release_proxy
  stale_proxy-steals p x y p' p'' calls d first nonzero second same =
      let q = run ops walk walks (release_proxy x p') calls in
      let d' : IsDistinct p' = λ i.
        omega
          (arith, get_connection-owned ops walk walks i p d, ap (λ r. owned i r.1) first, d i) in
      let dq : IsDistinct q =
        (run-owned ops walk walks (release_proxy x p') calls
          (λ i. omega (arith, release_connection-owned i x.m_connection p' d', d' i))).1 in
      let d'' : IsDistinct p'' = λ i.
        omega
          (arith, get_connection-owned ops walk walks i q dq, ap (λ r. owned i r.1) second, dq i) in
      let (lent_once, _) = get_connection-valid p p' x first nonzero in
      let (_, lent) =
        get_connection-valid q p'' y second (λ none_lent. nonzero (same ∙ none_lent)) in
      let (lost, idle) = destroy_proxy-shared x y p'' d'' lent_once same lent in (lent, lost, idle)
