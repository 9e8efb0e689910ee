-- ===== src/Pool/Keys.antt =====
-- How often an address occurs among the nodes of a map, and that each operation on a map keeps track.
use asabru_engine.Common.{Bool-cases, Option-cases, inl, inr}
use mathlib.Core.Path.{ap₂}
use asabru_engine.Common.{ℕ, ◌+◌, ◌≤◌, ◌==◌, ◌≡◌, refl, ap, ◌∙◌, if◌then◌else◌, arith}
use asabru_engine.Common.{true, false, Option, none, some, List, [], ◌∷◌}
use mathlib.Core.List.{Perm, Permᴰ}
use mathlib.Core.Logic.{∥∥₁_elim}
use native.Mathlib.Nat.{ℕ_set}
use asabru_engine.Pool.{Node, ConnectionPool, ConnectionOps, has_key, extract, insert, fill_idle}
use asabru_engine.Pool.{scan_idle, check_connect, beat_all}

module _ {C : Type 0} where
  -- What the nodes of a map weigh together.
  abbrev pub weigh : (Node C → ℕ) → List (Node C) → ℕ
  weigh f [] = 0
  weigh f (node ∷ m) = f node + weigh f m

  abbrev weight : ℕ → Node C → ℕ
  weight k node = if node.0 == k then 1 else 0

  abbrev pub count : ℕ → List (Node C) → ℕ
  count k m = weigh (weight k) m

  -- The connections that the pool owns, by address.
  abbrev pub owned : ℕ → ConnectionPool C → ℕ
  owned k p = count k p.idle + count k p.busy

  pub has_key-count : (k : ℕ) (m : List (Node C)) → has_key k m ≡ true → 1 ≤ count k m
  unfolding has_key
  has_key-count k [] h = cc
  has_key-count k ((j, c) ∷ m) h = ground (arith, has_key-count k m)

  pub has_key-none : (k : ℕ) (m : List (Node C)) → count k m ≡ 0 → has_key k m ≡ false
  unfolding has_key
  has_key-none k [] h = refl
  has_key-none k ((j, c) ∷ m) h = ground (arith, has_key-none k m)

  -- What `extract` finds is the one node that goes.
  pub extract-weigh :
      (f : Node C → ℕ) (k : ℕ) (m : List (Node C)) (node : Node C) (rest : List (Node C))
      → extract k m ≡ some (node, rest)
      → weigh f m ≡ f node + weigh f rest
  unfolding extract
  extract-weigh f k [] node rest e = cc
  extract-weigh f k ((j, c) ∷ m) node rest e = elim (Bool-cases (j == k)) [
    | inl here ↦ ground arith
    | inr other ↦ elim (Option-cases (extract k m)) [
      | inl miss ↦ ground arith
      | inr ((found, tail), hit) ↦ ground (arith, extract-weigh f k m found tail hit)
    ]
  ]

  -- It has the key.
  pub extract-key :
      (k : ℕ) (m : List (Node C)) (node : Node C) (rest : List (Node C))
      → extract k m ≡ some (node, rest)
      → node.0 ≡ k
  unfolding extract
  extract-key k [] node rest e = cc
  extract-key k ((j, c) ∷ m) node rest e = elim (Bool-cases (j == k)) [
    | inl here ↦ ground arith
    | inr other ↦ elim (Option-cases (extract k m)) [
      | inl miss ↦ ground arith
      | inr ((found, tail), hit) ↦ ground (arith, extract-key k m found tail hit)
    ]
  ]

  pub extract-count :
      (i k : ℕ) (m : List (Node C)) (node : Node C) (rest : List (Node C))
      → extract k m ≡ some (node, rest)
      → (node.0 ≡ k) × (count i m ≡ count i (node ∷ rest))
  extract-count i k m node rest e =
      (extract-key k m node rest e, extract-weigh (weight i) k m node rest e)

  pub insert-weigh :
      (f : Node C → ℕ) (node : Node C) (m : List (Node C))
      → count node.0 m ≡ 0
      → weigh f (insert node m) ≡ f node + weigh f m
  unfolding insert
  insert-weigh f (k, c) m h = rw (has_key-none k m h)

  pub insert-count :
      (i : ℕ) (node : Node C) (m : List (Node C))
      → count node.0 m ≡ 0
      → count i (insert node m) ≡ count i (node ∷ m)
  insert-count i node m h = insert-weigh (weight i) node m h

  -- The constructor of a pool takes over all nodes whose addresses are distinct.
  pub fill_idle-weigh :
      (f : Node C → ℕ) (nodes m : List (Node C))
      → ((k : ℕ) → count k nodes + count k m ≤ 1)
      → weigh f (fill_idle nodes m) ≡ weigh f nodes + weigh f m
  unfolding fill_idle
  fill_idle-weigh f [] m d = omega arith
  fill_idle-weigh f ((k, c) ∷ nodes) m d = omega (
    arith,
    insert-weigh f (k, c) m absent,
    fill_idle-weigh f nodes (insert (k, c) m)
        λ i. omega (arith, d i, insert-count i (k, c) m absent),
  )
    where
      absent : count k m ≡ 0
      absent = ground (arith, d k)

  weigh-Permᴰ : (f : Node C → ℕ) {l m : List (Node C)} → Permᴰ l m → weigh f l ≡ weigh f m
  weigh-Permᴰ f Permᴰ.nil = refl
  weigh-Permᴰ f (Permᴰ.cons e p) = ap₂ (λ (a n : ℕ). a + n) (ap f e) (weigh-Permᴰ f p)
  weigh-Permᴰ f (Permᴰ.swap e g) = omega (arith, ap f e, ap f g)
  weigh-Permᴰ f (Permᴰ.trans p q) = weigh-Permᴰ f p ∙ weigh-Permᴰ f q

  pub weigh-Perm : (f : Node C → ℕ) {l m : List (Node C)} → Perm l m → weigh f l ≡ weigh f m
  weigh-Perm f p = ∥∥₁_elim p (ℕ_set _ _) (weigh-Permᴰ f)

  pub count-Perm : (k : ℕ) {l m : List (Node C)} → Perm l m → count k l ≡ count k m
  count-Perm k p = weigh-Perm (weight k) p

  abbrev pub count_found : ℕ → Option (Node C) → ℕ
  count_found k none = 0
  count_found k (some node) = if node.0 == k then 1 else 0

  module _ (ops : ConnectionOps C) where
    -- The loop of get_connection keeps every address, in what it found or in what stays.
    pub scan_idle-count :
        (k : ℕ) (nodes : List (Node C))
        → let r = scan_idle ops nodes in count_found k r.0 + count k r.1 ≡ count k nodes
    unfolding scan_idle
    scan_idle-count k [] = omega arith
    scan_idle-count k ((j, c) ∷ nodes) = elim (Bool-cases (check_connect ops c).0) [
      | inl e ↦ rw e (omega arith)
      | inr e ↦ rw e (omega (arith, scan_idle-count k nodes))
    ]

    pub beat_all-count :
        (k : ℕ) (nodes : List (Node C)) → count k (beat_all ops nodes) ≡ count k nodes
    unfolding beat_all
    beat_all-count k [] = refl
    beat_all-count k ((j, c) ∷ nodes) = ground (arith, beat_all-count k nodes)
