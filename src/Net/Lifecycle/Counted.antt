-- ===== src/Net/Lifecycle/Counted.antt =====
-- Without assignments every counter is the number of its objects.
use asabru_engine.Common.{
  ℕ, zero, suc, ◌+◌, ◌-◌, ◌≤◌, ◌<◌, ◌==◌, ◌≡◌, refl, ap, if◌then◌else◌, arith,
}
use asabru_engine.Common.{Option, none, some, List, [], ◌∷◌, ◌++◌, length, length-append, ok}
use asabru_engine.Common.{Bool-cases, inl, inr}
use native.Mathlib.Nat.{le_refl}
use asabru_engine.Net.Lifecycle.{
  Socket, Store, empty_store, update, construct, increment, copy, destroy, Uses, Reach, adopts,
  copies, destroys, here, next_use, creates, create_throws, create,
}

-- How many of the objects share the counter at an address.
abbrev pub refs : ℕ → List Socket → ℕ
refs a [] = 0
refs a (o ∷ l) = (if o.ref_counter == a then 1 else 0) + refs a l

pub refs-append : (a : ℕ) (xs ys : List Socket) → refs a (xs ++ ys) ≡ refs a xs + refs a ys
refs-append a [] ys = omega arith
refs-append a (x ∷ xs) ys = omega (arith, refs-append a xs ys)

-- A counter that nobody shares is deleted.
abbrev pub counter_of : ℕ → Option ℕ
counter_of zero = none
counter_of (suc n) = some (suc n)

-- The objects that share a counter hold the descriptor that came with it.
abbrev pub Holds : (ℕ → Option ℕ) → List Socket → Type 0
Holds opened [] = Unit {0}
Holds opened (o ∷ l) = (opened o.ref_counter ≡ some o.s) × Holds opened l

pub record IsCounted (n : ℕ) (w : Store) : Type 0 where
  pub counted : (a : ℕ) → w.counters a ≡ counter_of (refs a w.live)
  pub total : w.nof_sockets ≡ length w.live + n
  pub unused : (a : ℕ) → w.next ≤ a → refs a w.live + refs a w.closed ≡ 0
  pub once : (a : ℕ) → a < w.next → refs a w.closed ≡ (if refs a w.live == 0 then 1 else 0)
  pub live_hold : Holds w.opened w.live
  pub closed_hold : Holds w.opened w.closed

empty_store-IsCounted : IsCounted 0 empty_store
unfolding empty_store
empty_store-IsCounted = record {
  counted = λ a. refl;
  total = refl;
  unused = λ a h. omega arith;
  once = λ a h. absurd (omega arith);
  live_hold = tt;
  closed_hold = tt;
}

Holds-update :
    (k fd : ℕ) (f : ℕ → Option ℕ) (l : List Socket)
    → refs k l ≡ 0
    → Holds f l
    → Holds (update k (some fd) f) l
Holds-update k fd f [] none_there h = tt
Holds-update k fd f (o ∷ l) none_there h =
    (ground (arith, h.0), Holds-update k fd f l (omega arith) h.1)

construct-IsCounted : (fd : ℕ) {w : Store} {n : ℕ} → IsCounted n w → IsCounted n (construct fd w)
unfolding construct
construct-IsCounted fd {w} i = record {
  counted = λ a. ground (arith, i.counted a, i.unused a);
  total = omega (arith, i.total);
  unused = λ a h. ground (arith, i.unused a);
  once = λ a h. ground (arith, i.once a, i.unused a);
  live_hold = (
    ground arith,
    Holds-update w.next fd w.opened w.live (omega (arith, i.unused w.next (le_refl w.next)))
        i.live_hold,
  );
  closed_hold =
      Holds-update w.next fd w.opened w.closed (omega (arith, i.unused w.next (le_refl w.next)))
        i.closed_hold;
}

pub refs-split :
    (a : ℕ) {l : List Socket} (before after : List Socket) (o : Socket)
    → l ≡ before ++ (o ∷ after)
    → refs a l ≡ (if o.ref_counter == a then 1 else 0) + refs a (before ++ after)
refs-split a before after o e =
    rw e (omega (arith, refs-append a before (o ∷ after), refs-append a before after))

Holds-middle :
    (f : ℕ → Option ℕ) (before after : List Socket) (o : Socket)
    → Holds f (before ++ (o ∷ after))
    → (f o.ref_counter ≡ some o.s) × Holds f (before ++ after)
Holds-middle f [] after o h = h
Holds-middle f (x ∷ before) after o h =
    let (holds, rest) = Holds-middle f before after o h.1 in (holds, (h.0, rest))

-- The objects that share a counter, where one of them is at hand.
pub counter_found :
    {w : Store} {n : ℕ} (before after : List Socket) (o : Socket)
    → IsCounted n w
    → w.live ≡ before ++ (o ∷ after)
    → w.counters o.ref_counter ≡ some (refs o.ref_counter (before ++ after) + 1)
counter_found {w = w} before after o i e =
    ground (arith, i.counted o.ref_counter, refs-split o.ref_counter before after o e)

unfoldable pub copied : Socket → ℕ → Store → Store
copied o n w = record w {
  counters = update o.ref_counter (some (n + 1)) w.counters;
  nof_sockets = w.nof_sockets + 1;
  live = record { s = o.s; ref_counter = o.ref_counter } ∷ w.live;
}

pub copy_runs :
    (w : Store) (o : Socket) (n : ℕ)
    → w.counters o.ref_counter ≡ some n
    → copy o w ≡ ok (copied o n w)
unfolding copy increment copied
copy_runs w o n e = rw (e, copy)

copied-IsCounted :
    {w : Store} {n : ℕ} (before after : List Socket) (o : Socket)
    → IsCounted n w
    → w.live ≡ before ++ (o ∷ after)
    → IsCounted n (copied o (refs o.ref_counter (before ++ after) + 1) w)
unfolding copied
copied-IsCounted {w} before after o i e = record {
  counted = λ a. ground (arith, i.counted a, split a);
  total = omega (arith, i.total);
  unused = λ a h. ground (arith, i.unused a, split a);
  once = λ a h. ground (arith, i.once a, split a);
  live_hold = ((Holds-middle w.opened before after o (rw e at (i.live_hold))).0, i.live_hold);
  closed_hold = i.closed_hold;
}
  where
    split :
        (a : ℕ) → refs a w.live ≡ (if o.ref_counter == a then 1 else 0) + refs a (before ++ after)
    split a = refs-split a before after o e

unfoldable pub released : List Socket → Socket → ℕ → Store → Store
released rest this n w =
    if n == 1
    then record w {
      counters = update this.ref_counter none w.counters;
      nof_sockets = w.nof_sockets - 1;
      live = rest;
      closed = this ∷ w.closed;
    }
    else record w {
      counters = update this.ref_counter (some (n - 1)) w.counters;
      nof_sockets = w.nof_sockets - 1;
      live = rest;
    }

pub destroy_runs :
    (w : Store) (before after : List Socket) (o : Socket) (n : ℕ)
    → w.counters o.ref_counter ≡ some n
    → destroy before o after w ≡ ok (released (before ++ after) o n w)
unfolding destroy released
destroy_runs w before after o n e = rw (e, destroy) (ground arith)

released-IsCounted :
    {w : Store} {n : ℕ} (before after : List Socket) (o : Socket)
    → IsCounted n w
    → w.live ≡ before ++ (o ∷ after)
    → IsCounted n (released (before ++ after) o (refs o.ref_counter (before ++ after) + 1) w)
unfolding released
released-IsCounted {w} {n} before after o i e =
    elim (Bool-cases (refs o.ref_counter (before ++ after) + 1 == 1)) [
      | inl last ↦ rw last (record {
        counted = λ a. ground (arith, i.counted a, split a);
        total = lengths;
        unused = λ a h. ground (arith, i.unused a, split a);
        once = λ a h. ground (arith, i.once a, split a);
        live_hold = held.1;
        closed_hold = (held.0, i.closed_hold);
      })
      | inr more ↦ rw more (record {
        counted = λ a. ground (arith, i.counted a, split a);
        total = lengths;
        unused = λ a h. ground (arith, i.unused a, split a);
        once = λ a h. ground (arith, i.once a, split a);
        live_hold = held.1;
        closed_hold = i.closed_hold;
      })
    ]
  where
    split :
        (a : ℕ) → refs a w.live ≡ (if o.ref_counter == a then 1 else 0) + refs a (before ++ after)
    split a = refs-split a before after o e

    held : (w.opened o.ref_counter ≡ some o.s) × Holds w.opened (before ++ after)
    held = Holds-middle w.opened before after o (rw e at (i.live_hold))

    lengths : w.nof_sockets - 1 ≡ length (before ++ after) + n
    lengths =
        omega (
          arith,
          i.total,
          ap length e,
          length-append before (o ∷ after),
          length-append before after,
        )

Uses-IsCounted : {w w' : Store} {n : ℕ} → Uses w w' → IsCounted n w → IsCounted n w'
unfolding create
Uses-IsCounted (adopts fd) i = construct-IsCounted fd i
Uses-IsCounted (creates fd) i = construct-IsCounted fd i
Uses-IsCounted {w} (copies before after o {w'} e c) i =
    let p : w' ≡ copied o (refs o.ref_counter (before ++ after) + 1) w =
      cc (copy_runs w o _ (counter_found before after o i e)) in
    rw p (copied-IsCounted before after o i e)
Uses-IsCounted {w} (destroys before after o {w'} e d) i =
    let p : w' ≡ released (before ++ after) o (refs o.ref_counter (before ++ after) + 1) w =
      cc (destroy_runs w before after o _ (counter_found before after o i e)) in
    rw p (released-IsCounted before after o i e)

create-IsCounted : {w : Store} {n : ℕ} → IsCounted n w → IsCounted (suc n) (create none w).1
unfolding create
create-IsCounted {w} i = record {
  counted = i.counted;
  total = omega (arith, i.total);
  unused = i.unused;
  once = i.once;
  live_hold = i.live_hold;
  closed_hold = i.closed_hold;
}

-- In every store that constructors, also those that throw, copies and destructors lead to, each counter
-- holds the number of the objects that share it and is deleted when there are none; `nofSockets_` is the
-- number of objects and of the calls of Socket() that threw; and the descriptor that came with a counter
-- was closed for it once if no object shares the counter any more, and otherwise not at all.
pub Reach-IsCounted : {n : ℕ} {w : Store} → Reach empty_store n w → IsCounted n w
Reach-IsCounted here = empty_store-IsCounted
Reach-IsCounted (next_use r u) = Uses-IsCounted u (Reach-IsCounted r)
Reach-IsCounted (create_throws r) = create-IsCounted (Reach-IsCounted r)

-- In such a store the destructor of a live object finds its counter, and closes the descriptor that
-- came with the counter exactly when no other object shares it.
pub destroy-last :
    {w : Store} {n : ℕ} (before after : List Socket) (o : Socket)
    → Reach empty_store n w
    → w.live ≡ before ++ (o ∷ after)
    → (w' : Store) × (destroy before o after w ≡ ok w')
      × (w'.live ≡ before ++ after)
      × (w'.closed ≡ (if refs o.ref_counter (before ++ after) == 0 then o ∷ w.closed else w.closed))
      × (w.opened o.ref_counter ≡ some o.s)
unfolding released
destroy-last {w} {n} before after o r e = (
  released (before ++ after) o (refs o.ref_counter (before ++ after) + 1) w,
  destroy_runs w before after o _ (counter_found before after o i e),
  ground arith,
  ground arith,
  (Holds-middle w.opened before after o (rw e at (i.live_hold))).0,
)
  where
    i : IsCounted n w
    i = Reach-IsCounted r
