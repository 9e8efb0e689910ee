-- ===== src/Pool/Clients/Counts.antt =====
-- Counting the proxies of a world, and the addresses of a map.
use asabru_engine.Common.{ℕ, ◌+◌, ◌≤◌, ◌≡◌, refl, ap, arith}
use asabru_engine.Common.{false, none, List, [], ◌∷◌, ◌++◌, Bool-cases, Option-cases, inl, inr}
use asabru_engine.Pool.{Node, ConnectionProxy, extract, insert, has_key, fill_idle}
use asabru_engine.Pool.Keys.{count}
use asabru_engine.Pool.Owned.{}
use asabru_engine.Pool.Clients.{Taken, total}

total-append :
    (f : ConnectionProxy → ℕ) (xs ys : List ConnectionProxy)
    → total f (xs ++ ys) ≡ total f xs + total f ys
total-append f [] ys = omega arith
total-append f (x ∷ xs) ys = omega (arith, total-append f xs ys)

pub total-Taken :
    (f : ConnectionProxy → ℕ) (x : ConnectionProxy) {proxies rest : List ConnectionProxy}
    → Taken x proxies rest
    → total f proxies ≡ f x + total f rest
total-Taken f x (before, after, whole, others) = omega (
  arith,
  ap (total f) whole,
  ap (total f) others,
  total-append f before (x ∷ after),
  total-append f before after,
)

module _ {C : Type 0} where
  pub extract-none : (k : ℕ) (m : List (Node C)) → extract k m ≡ none → count k m ≡ 0
  unfolding extract
  extract-none k [] e = refl
  extract-none k ((j, c) ∷ m) e = elim (Option-cases (extract k m)) [
    | inl miss ↦ ground (arith, extract-none k m)
    | inr ((found, rest), hit) ↦ ground arith
  ]

  pub has_key-false : (k : ℕ) (m : List (Node C)) → has_key k m ≡ false → count k m ≡ 0
  unfolding has_key
  has_key-false k [] e = refl
  has_key-false k ((j, c) ∷ m) e = ground (arith, has_key-false k m)

  insert-once :
      (k : ℕ) (node : Node C) (m : List (Node C))
      → ((j : ℕ) → count j m ≤ 1)
      → count k (insert node m) ≤ 1
  unfolding insert
  insert-once k (j, c) m once = elim (Bool-cases (has_key j m)) [
    | inl e ↦ rw e (once k)
    | inr e ↦ rw e (ground (arith, once k, has_key-false j m e))
  ]

  insert-avoids :
      (k : ℕ) (node : Node C) (m : List (Node C))
      → count k (node ∷ m) ≡ 0
      → count k (insert node m) ≡ 0
  unfolding insert
  insert-avoids k (j, c) m avoids = ground (arith, avoids)

  -- The constructor keeps no address twice.
  pub fill_idle-once :
      (k : ℕ) (nodes m : List (Node C))
      → ((j : ℕ) → count j m ≤ 1)
      → count k (fill_idle nodes m) ≤ 1
  unfolding fill_idle
  fill_idle-once k [] m once = once k
  fill_idle-once k (node ∷ nodes) m once =
      fill_idle-once k nodes (insert node m) (λ j. insert-once j node m once)

  pub fill_idle-avoids :
      (k : ℕ) (nodes m : List (Node C))
      → count k nodes + count k m ≡ 0
      → count k (fill_idle nodes m) ≡ 0
  unfolding fill_idle
  fill_idle-avoids k [] m avoids = omega arith
  fill_idle-avoids k ((j, c) ∷ nodes) m avoids =
      fill_idle-avoids k nodes (insert (j, c) m)
        (omega (arith, avoids, insert-avoids k (j, c) m (omega (arith, avoids))))

  pub none_of_each : (m : List (Node C)) → ((k : ℕ) → count k m ≡ 0) → m ≡ []
  none_of_each [] none_there = refl
  none_of_each ((j, c) ∷ m) none_there = absurd (ground (arith, none_there j))
