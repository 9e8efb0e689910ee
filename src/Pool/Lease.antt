-- ===== src/Pool/Lease.antt =====
-- What get_connection hands out, and what a release gives back.
use asabru_engine.Common.{ℕ, ◌≡◌, ◌≢◌, ◌∙◌, refl, ap, if◌then◌else◌}
use asabru_engine.Common.{true, false, Option, none, some, List, [], ◌∷◌, ◌++◌, All, map}
use asabru_engine.Common.{Bool-cases, inl, inr, ◌⊎◌}
use asabru_engine.Pool.{
  Node, ConnectionPool, ConnectionProxy, ConnectionOps, has_key, insert, scan_idle, hand_out,
  get_connection, check_connect,
}
use asabru_engine.Pool.Owned.{get_connection_cases}

-- The proxy of what was found, or the null proxy; and the busy map with it.
abbrev pub lease : {C : Type 0} → Option (Node C) → ConnectionProxy
lease none = record { m_pool = false; m_connection = 0 }
lease (some (k, c)) = record { m_pool = true; m_connection = k }

abbrev pub lend : {C : Type 0} → Option (Node C) → List (Node C) → List (Node C)
lend none busy = busy
lend (some (k, c)) busy = if has_key k busy then busy else (k, c) ∷ busy

hand_out_lem :
    {C : Type 0} (p : ConnectionPool C) (found : Option (Node C)) (rest : List (Node C))
    → hand_out p found rest ≡ (lease found, record { idle = rest; busy = lend found p.busy })
unfolding hand_out insert
hand_out_lem p none rest = refl
hand_out_lem p (some (k, c)) rest = refl

module _ {C : Type 0} (ops : ConnectionOps C) where
  -- A node as its check leaves it.
  abbrev pub checked : Node C → Node C
  checked (k, c) = (k, (check_connect ops c).1)

  abbrev pub Fails : Node C → Type 0
  Fails (k, c) = (check_connect ops c).0 ≡ false

  -- The first node in the list that passes its check, with the failures before it; or no node passes.
  -- Every node that was checked is as its check left it, and those behind the chosen one are untouched.
  abbrev pub Picks : List (Node C) → Option (Node C) → List (Node C) → Type 0
  Picks nodes found rest =
      ((found ≡ none) × All Fails nodes × (rest ≡ map checked nodes))
      ⊎ ((before : List (Node C)) × (k : ℕ) × (c : C) × (after : List (Node C)) × (nodes
            ≡ before ++ ((k, c) ∷ after))
          × All Fails before
          × ((check_connect ops c).0 ≡ true)
          × (found ≡ some (checked (k, c)))
          × (rest ≡ map checked before ++ after))

  scan_idle-Picks :
      (nodes : List (Node C)) → Picks nodes (scan_idle ops nodes).0 (scan_idle ops nodes).1
  unfolding scan_idle
  scan_idle-Picks [] = inl (refl, tt, refl)
  scan_idle-Picks ((k, c) ∷ nodes) = elim (Bool-cases (check_connect ops c).0) [
    | inl e ↦ inr ([], k, c, nodes, refl, tt, e, rw e, rw e)
    | inr e ↦ elim (scan_idle-Picks nodes) [
      | inl (f, fails, r) ↦ inl (rw e f, (e, fails), rw e (ap (◌∷◌ (checked (k, c))) r))
      | inr (before, j, d, after, split, fails, passes, f, r) ↦ inr (
        (k, c) ∷ before,
        j,
        d,
        after,
        ap (◌∷◌ (k, c)) split,
        (e, fails),
        passes,
        rw e f,
        rw e (ap (◌∷◌ (checked (k, c))) r),
      )
    ]
  ]

  module _ (walk : List (Node C) → List (Node C)) where
    -- On a pool with idle connections get_connection takes the first one, in the order of the walk, whose
    -- check passes, out of the idle map, as its check left it, into the busy map, and answers with a proxy
    -- of its address; where none passes it answers with the null proxy and lends nothing.
    pub get_connection-Picks :
        (p : ConnectionPool C)
        → p.idle ≢ []
        → (found : Option (Node C)) × (rest : List (Node C)) × Picks (walk p.idle) found rest
          × (get_connection ops walk p
              ≡ (lease found, record { idle = rest; busy = lend found p.busy }))
    get_connection-Picks p some_idle = elim (get_connection_cases ops walk p) [
      | inl (e, _) ↦ absurd (some_idle e)
      | inr (_, e) ↦ (
        (scan_idle ops (walk p.idle)).0,
        (scan_idle ops (walk p.idle)).1,
        scan_idle-Picks (walk p.idle),
        e ∙ hand_out_lem p (scan_idle ops (walk p.idle)).0 (scan_idle ops (walk p.idle)).1,
      )
    ]
