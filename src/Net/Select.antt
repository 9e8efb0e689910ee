-- ===== src/Net/Select.antt =====
-- SocketSelect: the descriptor set that `select` leaves. A set of the C library has room for the
-- descriptors below FD_SETSIZE; FD_SET of another one writes outside it.
use asabru_engine.Common.{
  ℕ, ◌==◌, ltb, if◌then◌else◌, Bool, true, false, List, [], ◌∷◌, Option, none, some, Checked, ok,
  fault, ◌&&◌,
}

-- The answer of `select`: the descriptors that are ready, or an error.
pub data Ready : Type 0 where
  ready : List ℕ → Ready
  select_error : Ready

unfoldable pub contains : ℕ → List ℕ → Bool
contains fd [] = false
contains fd (x ∷ xs) = if x == fd then true else contains fd xs

-- The set that is passed to `select` for one socket or two.
unfoldable pub select_set : ℕ → Option ℕ → List ℕ
select_set s1 none = s1 ∷ []
select_set s1 (some s2) = s1 ∷ s2 ∷ []

unfoldable pub max_fd : ℕ → Option ℕ → ℕ
max_fd s1 none = s1
max_fd s1 (some s2) = if ltb s1 s2 then s2 else s1

-- The constructor: on an error its own `catch` logs, and the set stays as it was passed.
unfoldable pub fds_after : ℕ → Option ℕ → Ready → List ℕ
unfolding select_set
fds_after s1 s2 (ready fds) = fds
fds_after s1 s2 select_error = select_set s1 s2

abbrev pub fd_setsize : ℕ
fd_setsize = 1024

unfoldable pub fits_set : ℕ → Option ℕ → Bool
fits_set s1 none = ltb s1 fd_setsize
fits_set s1 (some s2) = ltb s1 fd_setsize && ltb s2 fd_setsize

unfoldable pub new_socket_select : ℕ → Option ℕ → Ready → Checked (List ℕ)
unfolding fits_set fds_after
new_socket_select s1 s2 answer = if fits_set s1 s2 then ok (fds_after s1 s2 answer) else fault

unfoldable pub readable : List ℕ → ℕ → Bool
unfolding contains
readable fds s = contains s fds
