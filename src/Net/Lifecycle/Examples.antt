-- ===== src/Net/Lifecycle/Examples.antt =====
-- Small histories of sockets.
use asabru_engine.Common.{◌≡◌, refl, [], ◌∷◌, none, some, ok}
use asabru_engine.Net.Lifecycle.{
  Socket, Store, empty_store, update, construct, increment, copy, assign, Reach, adopts, copies,
  here, next_use, create_throws, create,
}
use asabru_engine.Net.Lifecycle.Counted.{IsCounted, Reach-IsCounted}

abbrev seven : Socket
seven = record { s = 7; ref_counter = 0 }

abbrev eight : Socket
eight = record { s = 8; ref_counter = 1 }

two_sockets : Store
two_sockets = construct 8 (construct 7 empty_store)

two_sockets-Reach : Reach empty_store 0 two_sockets
unfolding two_sockets
two_sockets-Reach = next_use (next_use here (adopts 7)) (adopts 8)

copied_twice : Store
unfolding two_sockets
copied_twice = record two_sockets {
  counters = update 0 (some 2) two_sockets.counters;
  nof_sockets = 3;
  live = seven ∷ eight ∷ seven ∷ [];
}

copied_twice-Reach : Reach empty_store 0 copied_twice
unfolding two_sockets copied_twice construct empty_store copy increment
copied_twice-Reach = next_use two_sockets-Reach (copies (eight ∷ []) [] seven refl refl)

-- A Socket() that throws on top.
one_thrown : Store
unfolding copied_twice
one_thrown = record copied_twice { nof_sockets = 4 }

one_thrown-Reach : Reach empty_store 1 one_thrown
unfolding one_thrown copied_twice two_sockets construct empty_store create
one_thrown-Reach = create_throws copied_twice-Reach

Reach-IsCounted_example : IsCounted 1 one_thrown
Reach-IsCounted_example = Reach-IsCounted one_thrown-Reach

-- `seven = eight`, and then the destructors of both.
after_assign : Store
unfolding two_sockets
after_assign = record two_sockets {
  counters = update 1 (some 2) two_sockets.counters;
  nof_sockets = 3;
  live = eight ∷ eight ∷ [];
}

one_destroyed : Store
unfolding after_assign
one_destroyed = record after_assign {
  counters = update 1 (some 1) after_assign.counters;
  nof_sockets = 2;
  live = eight ∷ [];
}

all_destroyed : Store
unfolding one_destroyed
all_destroyed = record one_destroyed {
  counters = update 1 none one_destroyed.counters;
  nof_sockets = 1;
  live = [];
  closed = eight ∷ [];
}

assigned : assign (eight ∷ []) seven [] eight two_sockets ≡ ok after_assign
unfolding two_sockets after_assign construct empty_store assign increment
assigned = refl
