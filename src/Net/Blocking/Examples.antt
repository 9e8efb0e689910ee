-- ===== src/Net/Blocking/Examples.antt =====
-- RecvBlocking on small scripts.
use asabru_engine.Common.{ℕ, ◌≡◌, List, [], ◌∷◌, ◌++◌, arith}
use asabru_engine.Net.Blocking.{filled, recv_blocking}
use asabru_engine.Net.Blocking.Filled.{answers, recv_blocking-answers}

abbrev one_two : List ℕ
one_two = 1 ∷ 2 ∷ []

recv_blocking-answers_example :
    recv_blocking (answers (one_two ∷ (3 ∷ []) ∷ []) ++ []) 3 ≡ filled 3 (1 ∷ 2 ∷ 3 ∷ []) []
recv_blocking-answers_example =
    recv_blocking-answers one_two ((3 ∷ []) ∷ []) [] (omega arith, (omega arith, tt)) (omega arith)
