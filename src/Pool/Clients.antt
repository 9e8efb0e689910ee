-- ===== src/Pool/Clients.antt =====
-- The pool among clients that keep to its proxies: a world is the pool with the proxies that are alive.
-- A client may get a proxy, move one into a new object, move-assign one to a proxy that holds nothing, and
-- destroy one; none is released by hand. What the threads do is any sequence of these, as each method of
-- the pool holds its mutex.
pub mod Counts
pub mod Lent
mod Examples
use asabru_engine.Common.{
  ℕ, zero, suc, ◌+◌, ◌≤◌, ◌==◌, ◌≡◌, ◌≢◌, refl, sym, ap, ◌∙◌, if◌then◌else◌, arith,
}
use asabru_engine.Common.{
  Bool, true, false, Option, none, some, List, [], ◌∷◌, ◌++◌, Bool-cases, Option-cases, inl, inr,
  ◌⊎◌,
}
use mathlib.Core.List.{Perm}
use asabru_engine.Pool.{
  Node, ConnectionPool, ConnectionProxy, ConnectionOps, extract, insert, scan_idle, hand_out,
  get_connection, release_connection, destroy_proxy, heart_beat, null_proxy, move_proxy,
  move_assign, valid, has_key, new_pool, fill_idle,
}
use asabru_engine.Pool.Keys.{
  count, count_found, owned, extract-count, insert-count, count-Perm, scan_idle-count, has_key-none,
}
use asabru_engine.Pool.Owned.{
  IsDistinct, get_connection_cases, get_connection-owned, heart_beat-owned,
  release_connection-owned,
}

-- A proxy among others, and the others.
abbrev pub Taken : ConnectionProxy → List ConnectionProxy → List ConnectionProxy → Type 0
Taken x proxies rest =
    (before : List ConnectionProxy) × (after : List ConnectionProxy) × (proxies
      ≡ before ++ (x ∷ after))
    × (rest ≡ before ++ after)

-- How many proxies hold the connection of an address.
abbrev pub holds : ℕ → ConnectionProxy → ℕ
holds k x = if x.m_connection == k then 1 else 0

-- A proxy that holds a connection and knows no pool to give it back to.
abbrev pub orphan : ConnectionProxy → ℕ
orphan x = if x.m_pool then 0 else if x.m_connection == 0 then 0 else 1

abbrev pub total : (ConnectionProxy → ℕ) → List ConnectionProxy → ℕ
total f [] = 0
total f (x ∷ proxies) = f x + total f proxies

abbrev pub held : ℕ → List ConnectionProxy → ℕ
held k = total (holds k)

pub record World (C : Type 0) : Type 0 where
  pub pool : ConnectionPool C
  pub proxies : List ConnectionProxy

abbrev pub start_world : {C : Type 0} → List (Node C) → World C
start_world connections = record { pool = new_pool connections; proxies = [] }

pub data Uses {C : Type 0} (ops : ConnectionOps C) (walk : List (Node C) → List (Node C))
    (w : World C) : World C → Type 0 where
  gets : Uses ops walk w (record {
    pool = (get_connection ops walk w.pool).1;
    proxies = (get_connection ops walk w.pool).0 ∷ w.proxies;
  })
  moves :
      (x : ConnectionProxy) {rest : List ConnectionProxy}
      → Taken x w.proxies rest
      → Uses ops walk w (record w { proxies = (move_proxy x).0 ∷ (move_proxy x).1 ∷ rest })
  assigns :
      (x y : ConnectionProxy) {others rest : List ConnectionProxy}
      → Taken x w.proxies others
      → Taken y others rest
      → x.m_connection ≡ 0
      → Uses ops walk w (record w { proxies = (move_assign x y).0 ∷ (move_assign x y).1 ∷ rest })
  destroys :
      (x : ConnectionProxy) {rest : List ConnectionProxy}
      → Taken x w.proxies rest
      → Uses ops walk w (record { pool = destroy_proxy x w.pool; proxies = rest })
  beats : Uses ops walk w (record w { pool = heart_beat ops walk w.pool })

pub data Reach {C : Type 0} (ops : ConnectionOps C) (walk : List (Node C) → List (Node C))
    (w : World C) : World C → Type 0 where
  here : Reach ops walk w w
  later : {u v : World C} → Reach ops walk w u → Uses ops walk u v → Reach ops walk w v
