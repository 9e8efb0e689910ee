-- ===== src/Pool/Abstract.antt =====
-- The pool as its clients may think of it: two bags of addresses, without an order and without the
-- connections behind them, between which a call moves one address or none.
use asabru_engine.Common.{ℕ, ◌+◌, ◌==◌, ◌≡◌, refl, sym, ap, ◌∙◌, if◌then◌else◌, arith}
use asabru_engine.Common.{
  true, false, Option, none, some, List, [], ◌∷◌, Bool-cases, Option-cases, inl, inr, ◌⊎◌,
}
use mathlib.Core.List.{Perm}
use mathlib.Core.Path.{subst}
use mathlib.Core.Quot
use mathlib.Core.Quot.{Quot, Quot-set}
use asabru_engine.Pool.{
  Node, ConnectionPool, ConnectionProxy, ConnectionOps, extract, insert, hand_out,
  release_connection, release_proxy, destroy_proxy, heart_beat,
}
use asabru_engine.Pool.Keys.{
  count, count_found, extract-count, insert-count, count-Perm, scan_idle-count, beat_all-count,
}
use asabru_engine.Pool.Owned.{
  IsDistinct, Call, gets, beats, releases, destroys, get_connection_cases, step, run, step-owned,
}

-- Two lists of addresses with the same ones, as often.
abbrev occurrences : ℕ → List ℕ → ℕ
occurrences k [] = 0
occurrences k (j ∷ l) = (if j == k then 1 else 0) + occurrences k l

abbrev SameAddresses : List ℕ → List ℕ → Type 0
SameAddresses l m = (k : ℕ) → occurrences k l ≡ occurrences k m

abbrev pub Bag : Type 0
Bag = Quot SameAddresses

abbrev pub put : ℕ → Bag → Bag
put k =
    Quot.lift Quot-set (λ l. Quot.mk (k ∷ l))
      (λ l m h. Quot.sound (λ j. ap (λ n. (if k == j then 1 else 0) + n) (h j)))

abbrev pub AbstractPool : Type 0
AbstractPool = Bag × Bag

-- What a call does to the idle and the lent addresses: nothing; a get may lend one idle address, and a
-- release, or the end of a proxy, may take back the lent address of the proxy.
pub data Moves (call : Call) (p q : AbstractPool) : Type 0 where
  stays : q ≡ p → Moves call p q
  lends : (k : ℕ) → call ≡ gets → p.0 ≡ put k q.0 → q.1 ≡ put k p.1 → Moves call p q
  takes_back :
      (x : ConnectionProxy)
      → (call ≡ releases x) ⊎ (call ≡ destroys x)
      → p.1 ≡ put x.m_connection q.1
      → q.0 ≡ put x.m_connection p.0
      → Moves call p q

-- One move for each call.
pub data MovesAll : List Call → AbstractPool → AbstractPool → Type 0 where
  no_call : {p : AbstractPool} → MovesAll [] p p
  call_then :
      {p q r : AbstractPool} (call : Call) {calls : List Call}
      → Moves call p q
      → MovesAll calls q r
      → MovesAll (call ∷ calls) p r

module _ {C : Type 0} where
  abbrev addresses : List (Node C) → List ℕ
  addresses [] = []
  addresses ((k, c) ∷ m) = k ∷ addresses m

  abbrev pub bag_of : List (Node C) → Bag
  bag_of m = Quot.mk (addresses m)

  abbrev pub abstract : ConnectionPool C → AbstractPool
  abstract p = (bag_of p.idle, bag_of p.busy)

  occurrences_lem : (k : ℕ) (m : List (Node C)) → occurrences k (addresses m) ≡ count k m
  occurrences_lem k [] = refl
  occurrences_lem k ((j, c) ∷ m) = omega (arith, occurrences_lem k m)

  same_bag : (l m : List (Node C)) → ((k : ℕ) → count k l ≡ count k m) → bag_of l ≡ bag_of m
  same_bag l m h = Quot.sound (λ k. omega (arith, h k, occurrences_lem k l, occurrences_lem k m))

  destroy_set :
      (x : ConnectionProxy) (p : ConnectionPool C)
      → x.m_pool ≡ true
      → destroy_proxy x p ≡ release_connection x.m_connection p
  unfolding destroy_proxy
  destroy_set x p e = ap (λ b. if b then release_connection x.m_connection p else p) e

  destroy_unset :
      (x : ConnectionProxy) (p : ConnectionPool C) → x.m_pool ≡ false → destroy_proxy x p ≡ p
  unfolding destroy_proxy
  destroy_unset x p e = ap (λ b. if b then release_connection x.m_connection p else p) e

  release-Moves :
      (call : Call) (x : ConnectionProxy) (p : ConnectionPool C)
      → IsDistinct p
      → (call ≡ releases x) ⊎ (call ≡ destroys x)
      → Moves call (abstract p) (abstract (release_connection x.m_connection p))
  unfolding release_connection
  release-Moves call x p d which = elim (Bool-cases (x.m_connection == 0)) [
    | inl e ↦ stays (rw e)
    | inr e ↦ elim (Option-cases (extract x.m_connection p.busy)) [
      | inl miss ↦ stays (rw (e, miss))
      | inr ((node, rest), hit) ↦
          takes_back x which
            (rw (e, hit)
              (same_bag p.busy (node ∷ rest)
                  (λ i. (extract-count i x.m_connection p.busy node rest hit).1)
                ∙ ap (λ k. put k (bag_of rest))
                    (extract-count 0 x.m_connection p.busy node rest hit).0))
            (rw (e, hit)
              (same_bag (insert node p.idle) (node ∷ p.idle)
                  (λ i. insert-count i node p.idle (absent node rest hit))
                ∙ ap (λ k. put k (bag_of p.idle))
                    (extract-count 0 x.m_connection p.busy node rest hit).0))
    ]
  ]
    where
      absent :
          (node : Node C) (rest : List (Node C))
          → extract x.m_connection p.busy ≡ some (node, rest)
          → count node.0 p.idle ≡ 0
      absent node rest hit =
          ground (arith, d node.0, (extract-count node.0 x.m_connection p.busy node rest hit).1)

  module _ (ops : ConnectionOps C) (walk : List (Node C) → List (Node C))
      (walks : (nodes : List (Node C)) → Perm (walk nodes) nodes) where
    hand_out-Moves :
        (p : ConnectionPool C) (found : Option (Node C)) (rest : List (Node C))
        → IsDistinct p
        → ((j : ℕ) → count_found j found + count j rest ≡ count j p.idle)
        → Moves gets (abstract p) (abstract (hand_out p found rest).1)
    unfolding hand_out
    hand_out-Moves p none rest d kept =
        stays (ap (λ b. (b, bag_of p.busy)) (same_bag rest p.idle (λ j. omega (arith, kept j))))
    hand_out-Moves p (some (k, c)) rest d kept =
        lends k refl (same_bag p.idle ((k, c) ∷ rest) (λ j. omega (arith, kept j))) (
          same_bag (insert (k, c) p.busy) ((k, c) ∷ p.busy)
            (λ j. insert-count j (k, c) p.busy absent))
      where
        absent : count k p.busy ≡ 0
        absent = ground (arith, d k, kept k)

    step-Moves :
        (p : ConnectionPool C) (call : Call)
        → IsDistinct p
        → Moves call (abstract p) (abstract (step ops walk walks p call))
    unfolding step release_proxy heart_beat
    step-Moves p gets d = elim (get_connection_cases ops walk p) [
      | inl (_, e) ↦ stays (ap (λ r. abstract r.1) e)
      | inr (_, e) ↦
          subst (λ r. Moves gets (abstract p) (abstract r.1)) (sym e)
            (hand_out-Moves p _ _ d
              λ j. scan_idle-count ops j (walk p.idle) ∙ count-Perm j (walks p.idle))
    ]
    step-Moves p (releases x) d = release-Moves (releases x) x p d (inl refl)
    step-Moves p (destroys x) d = elim (Bool-cases x.m_pool) [
      | inl e ↦
          subst (λ r. Moves (destroys x) (abstract p) (abstract r)) (sym (destroy_set x p e))
            (release-Moves (destroys x) x p d (inr refl))
      | inr e ↦ stays (ap abstract (destroy_unset x p e))
    ]
    step-Moves p beats d = stays (
        ap (λ b. (b, bag_of p.busy))
          (same_bag _ p.idle
            (λ j. beat_all-count ops j (walk p.idle) ∙ count-Perm j (walks p.idle))))

    -- On a pool whose addresses are distinct, in whatever order its map is walked, every sequence of calls
    -- is, seen as two bags of addresses, one move for each call: a get lends one idle address or does nothing, a release or the end of a proxy
    -- takes the proxy's lent address back or does nothing, and a heart beat does nothing.
    pub run-MovesAll :
        (p : ConnectionPool C) (calls : List Call)
        → IsDistinct p
        → MovesAll calls (abstract p) (abstract (run ops walk walks p calls))
    unfolding run
    run-MovesAll p [] d = no_call
    run-MovesAll p (call ∷ calls) d = call_then call (step-Moves p call d) (
        run-MovesAll (step ops walk walks p call) calls
          (λ i. omega (arith, step-owned ops walk walks i p call d, d i)))
