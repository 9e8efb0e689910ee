-- ===== src/Net/Lifecycle/Assigned.antt =====
-- What an assignment does to the counters.
use asabru_engine.Common.{ℕ, ◌+◌, ◌<◌, ◌≡◌}
use asabru_engine.Common.{some, List, ◌∷◌, ◌++◌}
use asabru_engine.Net.Lifecycle.{Socket, Store, update}
use asabru_engine.Net.Lifecycle.Counted.{refs}

-- The counter at an address exceeds the number of its objects.
abbrev IsLeaked : ℕ → Store → Type 0
IsLeaked a w = (n : ℕ) × (w.counters a ≡ some n) × (refs a w.live < n) × (a < w.next)

-- It stays so, and its descriptor is not closed.
abbrev Keeps : ℕ → Store → Store → Type 0
Keeps a w w' = IsLeaked a w' × (refs a w'.closed ≡ refs a w.closed)

assigned : List Socket → List Socket → Socket → Socket → ℕ → Store → Store
assigned before after this o n w = record w {
  counters = update o.ref_counter (some (n + 1)) w.counters;
  nof_sockets = w.nof_sockets + 1;
  live = before ++ (record this { ref_counter = o.ref_counter; s = o.s } ∷ after);
}
