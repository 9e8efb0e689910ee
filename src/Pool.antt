-- ===== src/Pool.antt =====
-- src/connection_pool/pool.cpp and include/connection-pool: a pool of connections, each idle or busy,
-- and the proxies that hand them out. A connection is named by its address, a number, with 0 for
-- `nullptr`. The two maps of the pool are association lists; the order in which an `unordered_map`
-- is walked is the library's affair and enters as the parameter `walk`. The mutex makes each method
-- one step, so a history is a sequence of calls.
pub mod Keys
pub mod Owned
pub mod Lease
pub mod Proxies
pub mod Abstract
pub mod Clients
pub mod Weighed
mod Examples
use asabru_engine.Common.{ℕ, ◌+◌, ◌==◌, if◌then◌else◌, Bool, true, false, List, [], ◌∷◌, ◌&&◌, not}
use asabru_engine.Common.{Option, none, some, length}

-- What a call of a virtual method of Connection ends in.
pub data Answer : Type 0 where
  returned : Bool → Answer
  threw : Answer

-- The interface cpool::Connection: each method may change the object.
pub record ConnectionOps (C : Type 0) : Type 0 where
  pub heart_beat : C → Answer × C
  pub is_healthy : C → Answer × C
  pub connect : C → Answer × C

-- A node of a map: the address and the object.
abbrev pub Node : Type 0 → Type 0
Node C = ℕ × C

pub record ConnectionPool (C : Type 0) : Type 0 where
  pub idle : List (Node C)
  pub busy : List (Node C)

-- `m_pool` is set or `nullptr`; there is one pool.
pub record ConnectionProxy : Type 0 where
  pub m_pool : Bool
  pub m_connection : ℕ

abbrev pub null_proxy : ConnectionProxy
null_proxy = record { m_pool = false; m_connection = 0 }

module _ {C : Type 0} where
  unfoldable pub has_key : ℕ → List (Node C) → Bool
  has_key k [] = false
  has_key k ((j, c) ∷ m) = if j == k then true else has_key k m

  -- `extract`: the node of a key, and the map without it.
  unfoldable pub extract : ℕ → List (Node C) → Option (Node C × List (Node C))
  extract k [] = none
  extract k ((j, c) ∷ m) =
      if j == k
      then some ((j, c), m)
      else elim (extract k m) [ none ↦ none | some (found, rest) ↦ some (found, (j, c) ∷ rest) ]

  -- `insert` of a node whose key is there already destroys the node; so does `emplace`.
  unfoldable pub insert : Node C → List (Node C) → List (Node C)
  insert (k, c) m = if has_key k m then m else (k, c) ∷ m

  -- The constructor moves the connections into the idle map, in their order.
  unfoldable pub fill_idle : List (Node C) → List (Node C) → List (Node C)
  unfolding insert
  fill_idle [] m = m
  fill_idle (node ∷ nodes) m = fill_idle nodes (insert node m)

  unfoldable pub new_pool : List (Node C) → ConnectionPool C
  unfolding fill_idle
  new_pool connections = record { idle = fill_idle connections []; busy = [] }

  unfoldable pub release_connection : ℕ → ConnectionPool C → ConnectionPool C
  unfolding extract insert
  release_connection k p = if k == 0 then p else elim (extract k p.busy) [
    | none ↦ p
    | some (node, rest) ↦ record { idle = insert node p.idle; busy = rest }
  ]

  -- The public overload, which leaves the proxy as it is.
  unfoldable pub release_proxy : ConnectionProxy → ConnectionPool C → ConnectionPool C
  release_proxy x p = release_connection x.m_connection p

  -- ~ConnectionProxy
  unfoldable pub destroy_proxy : ConnectionProxy → ConnectionPool C → ConnectionPool C
  destroy_proxy x p = if x.m_pool then release_connection x.m_connection p else p

  unfoldable pub valid : ConnectionProxy → ConnectionPool C → Bool
  valid x p = x.m_pool && (not (x.m_connection == 0) && has_key x.m_connection p.busy)

  unfoldable pub size_idle : ConnectionPool C → ℕ
  size_idle p = length p.idle

  unfoldable pub size_busy : ConnectionPool C → ℕ
  size_busy p = length p.busy

  unfoldable pub size : ConnectionPool C → ℕ
  size p = length p.busy + length p.idle

  -- The end of get_connection: the node that passed, if any, becomes busy.
  unfoldable pub hand_out :
      ConnectionPool C → Option (Node C) → List (Node C) → ConnectionProxy × ConnectionPool C
  unfolding insert
  hand_out p none rest = (null_proxy, record p { idle = rest })
  hand_out p (some (k, c)) rest = (
    record { m_pool = true; m_connection = k },
    record { idle = rest; busy = insert (k, c) p.busy },
  )

-- The move constructor: the new proxy, and what is left of the other.
unfoldable pub move_proxy : ConnectionProxy → ConnectionProxy × ConnectionProxy
move_proxy other = (other, null_proxy)

-- Move assignment of two different proxies: the target, and what is left of the other. What the target
-- held before is overwritten.
unfoldable pub move_assign : ConnectionProxy → ConnectionProxy → ConnectionProxy × ConnectionProxy
move_assign this other = (
  record this { m_pool = other.m_pool; m_connection = other.m_connection },
  record other { m_pool = false; m_connection = 0 },
)

module _ {C : Type 0} (ops : ConnectionOps C) where
  -- An exception is printed, and the answer is then `true`.
  unfoldable pub check_connect : C → Bool × C
  check_connect c =
      let (answer, c') = ops.is_healthy c in
      let (attempt, c'') = ops.connect c' in
      elim answer [
        | threw ↦ (true, c')
        | returned healthy ↦
            if healthy
            then (true, c')
            else elim attempt [ threw ↦ (true, c'') | returned connected ↦ (connected, c'') ]
      ]

  -- The loop of get_connection over the idle map: the first node that passes, as it is after the
  -- check, and the nodes that stay idle.
  unfoldable pub scan_idle : List (Node C) → Option (Node C) × List (Node C)
  scan_idle [] = (none, [])
  scan_idle ((k, c) ∷ nodes) =
      let (passed, c') = check_connect c in
      let later = scan_idle nodes in
      if passed then (some (k, c'), nodes) else (later.0, (k, c') ∷ later.1)

  -- The loop of heart_beat, which an exception ends.
  unfoldable pub beat_all : List (Node C) → List (Node C)
  beat_all [] = []
  beat_all ((k, c) ∷ nodes) =
      let (answer, c') = ops.heart_beat c in
      let later = beat_all nodes in
      elim answer [ returned b ↦ (k, c') ∷ later | threw ↦ (k, c') ∷ nodes ]

  module _ (walk : List (Node C) → List (Node C)) where
    unfoldable pub get_connection : ConnectionPool C → ConnectionProxy × ConnectionPool C
    unfolding scan_idle hand_out
    get_connection p = elim p.idle [
      | [] ↦ (null_proxy, p)
      | node ∷ nodes ↦ let (found, rest) = scan_idle (walk p.idle) in hand_out p found rest
    ]

    unfoldable pub heart_beat : ConnectionPool C → ConnectionPool C
    unfolding beat_all
    heart_beat p = record p { idle = beat_all (walk p.idle) }
