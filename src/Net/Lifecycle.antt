-- ===== src/Net/Lifecycle.antt =====
-- The life of Socket objects in Socket.cpp: constructors, copy, assignment and destructor around a
-- reference counter that copies share. A store holds the counters that are allocated, by address; a
-- counter that reaches 0 is deleted with its last object, so none of the stored ones is 0. `live` lists
-- the objects that exist, and `opened` and `closed` record which descriptor came with which counter.
pub mod Counted
pub mod Assigned
mod Examples
use asabru_engine.Common.{
  ℕ, suc, ◌+◌, ◌-◌, ◌≡◌, ◌==◌, if◌then◌else◌, Bool, true, false, Option, none, some,
}
use asabru_engine.Common.{List, [], ◌∷◌, ◌++◌, Checked, ok, fault}

pub record Socket : Type 0 where
  pub s : ℕ
  pub ref_counter : ℕ

pub record Store : Type 0 where
  pub counters : ℕ → Option ℕ
  pub next : ℕ
  pub nof_sockets : ℕ
  pub live : List Socket
  pub opened : ℕ → Option ℕ
  pub closed : List Socket

unfoldable pub empty_store : Store
empty_store = record {
  counters = λ a. none;
  next = 0;
  nof_sockets = 0;
  live = [];
  opened = λ a. none;
  closed = [];
}

-- A store or a record of numbers, changed at one address.
abbrev pub update : ℕ → Option ℕ → (ℕ → Option ℕ) → ℕ → Option ℕ
update k v f a = if k == a then v else f a

-- Start only counts, where the sockets need no set-up.
unfoldable pub socket_start : Store → Store
socket_start w = record w { nof_sockets = w.nof_sockets + 1 }

-- Socket(SOCKET s): `new int(1)` gives an address that was never used.
unfoldable pub construct : ℕ → Store → Store
unfolding socket_start
construct fd w = record (socket_start w) {
  counters = update w.next (some 1) w.counters;
  next = w.next + 1;
  live = record { s = fd; ref_counter = w.next } ∷ w.live;
  opened = update w.next (some fd) w.opened;
}

-- Socket(): CreateSocket throws on an invalid descriptor, when Start has counted already.
unfoldable pub create : Option ℕ → Store → Bool × Store
unfolding construct socket_start
create none w = (false, socket_start w)
create (some fd) w = (true, construct fd w)

-- `(*o.refCounter_)++`
unfoldable pub increment : ℕ → Store → Checked Store
increment a w = elim (w.counters a) [
  | none ↦ fault
  | some n ↦
      ok (record w {
        counters = update a (some (n + 1)) w.counters;
        nof_sockets = w.nof_sockets + 1;
      })
]

-- Socket(const Socket &o)
unfoldable pub copy : Socket → Store → Checked Store
unfolding increment
copy o w = elim (increment o.ref_counter w) [
  | fault ↦ fault
  | ok w' ↦ ok (record w' { live = record { s = o.s; ref_counter = o.ref_counter } ∷ w.live })
]

-- `this = o`, for the object `this` that stands between `before` and `after` among the live ones.
unfoldable pub assign : List Socket → Socket → List Socket → Socket → Store → Checked Store
unfolding increment
assign before this after o w = elim (increment o.ref_counter w) [
  | fault ↦ fault
  | ok w' ↦ ok (record w' {
    live = before ++ (record this { ref_counter = o.ref_counter; s = o.s } ∷ after);
  })
]

-- ~Socket of an object that stands between `before` and `after`.
unfoldable pub destroy : List Socket → Socket → List Socket → Store → Checked Store
destroy before this after w = elim (w.counters this.ref_counter) [
  | none ↦ fault
  | some n ↦
      let rest = record w { nof_sockets = w.nof_sockets - 1; live = before ++ after } in
      if n == 1
      then ok (record rest {
        counters = update this.ref_counter none w.counters;
        closed = this ∷ w.closed;
      })
      else ok (record rest { counters = update this.ref_counter (some (n - 1)) w.counters })
]

-- What a program does with its sockets, one operation after the other.
pub data Uses (w : Store) : Store → Type 0 where
  adopts : (fd : ℕ) → Uses w (construct fd w)
  creates : (fd : ℕ) → Uses w (create (some fd) w).1
  copies :
      (before after : List Socket) (o : Socket) {w' : Store}
      → w.live ≡ before ++ (o ∷ after)
      → copy o w ≡ ok w'
      → Uses w w'
  destroys :
      (before after : List Socket) (o : Socket) {w' : Store}
      → w.live ≡ before ++ (o ∷ after)
      → destroy before o after w ≡ ok w'
      → Uses w w'

-- An assignment besides.
pub data Assigns (w : Store) : Store → Type 0 where
  uses : {w' : Store} → Uses w w' → Assigns w w'
  assigns :
      (before after : List Socket) (this o : Socket) {w' : Store}
      → w.live ≡ before ++ (this ∷ after)
      → (around : List Socket × List Socket) → w.live ≡ around.0 ++ (o ∷ around.1)
      → assign before this after o w ≡ ok w'
      → Assigns w w'

-- Any uses, among which the constructor Socket() threw as often as the number says.
pub data Reach (w : Store) : ℕ → Store → Type 0 where
  here : Reach w 0 w
  next_use : {n : ℕ} {u v : Store} → Reach w n u → Uses u v → Reach w n v
  create_throws : {n : ℕ} {u : Store} → Reach w n u → Reach w (suc n) (create none u).1

pub data ReachAssigning (w : Store) : Store → Type 0 where
  start_here : ReachAssigning w w
  next_op : {u v : Store} → ReachAssigning w u → Assigns u v → ReachAssigning w v
