-- ===== src/Net/Blocking.antt =====
-- Socket::RecvBlocking and make_nonblocking of Socket.cpp. RecvBlocking keeps the result of `recv` as a
-- `size_t`, where -1 is 2 ^ 64 - 1, so that only 0 passes its test for an error: -1 is then taken off
-- the bytes that remain, which adds one, and added to the pointer, which moves it back by one.
pub mod Filled
mod Examples
use asabru_engine.Common.{
  ℕ, zero, suc, ◌+◌, ◌-◌, ◌%◌, ◌^◌, ◌==◌, if◌then◌else◌, bit_or, length, take,
}
use asabru_engine.Common.{Bool, true, false, List, [], ◌∷◌, ◌++◌, Option, none, some}
use asabru_engine.Net.Receive.{Recv, bytes, interrupted, failed}

-- How the loop ends: with a number, the bytes between the buffer's start and the pointer, and the
-- answers of the kernel that are left; in a `recv` that does not come back; or with a write in front of
-- the buffer.
pub data Filling : Type 0 where
  filled : ℕ → List ℕ → List Recv → Filling
  waiting underrun : Filling

-- Moves the pointer back by one: over the last byte, or in front of the buffer.
unfoldable pub step_back : ℕ → List ℕ → ℕ × List ℕ
step_back behind [] = (behind + 1, [])
step_back behind (b ∷ []) = (behind, [])
step_back behind (b ∷ c ∷ bs) = let (n, rest) = step_back behind (c ∷ bs) in (n, b ∷ rest)

-- The loop: `behind` is how far the pointer stands in front of the buffer, `buffer` what was written.
unfoldable pub fill_loop : List Recv → ℕ → ℕ → ℕ → List ℕ → Filling
unfolding step_back
fill_loop [] len remaining behind buffer = waiting
fill_loop (r ∷ rs) len remaining behind buffer =
    let (behind', buffer') = step_back behind buffer in
    let again = fill_loop rs len ((remaining + 1) % 2 ^ 64) behind' buffer' in
    elim r [
      | interrupted ↦ again
      | failed ↦ again
      | bytes buf ↦ elim (take remaining buf) [
        | [] ↦ filled 0 buffer rs
        | b ∷ bs ↦ elim behind [
          | suc n ↦ underrun
          | zero ↦
              let left = remaining - length (b ∷ bs) in
              elim (left == 0) [
                | true ↦ filled len (buffer ++ (b ∷ bs)) rs
                | false ↦ fill_loop rs len left 0 (buffer ++ (b ∷ bs))
              ]
        ]
      ]
    ]

-- What is returned is `length` as an `int`, which stands here by its 32 bits: from 2 ^ 31 on it is negative.
unfoldable pub recv_blocking : List Recv → ℕ → Filling
unfolding fill_loop
recv_blocking events len = fill_loop events (len % 2 ^ 32) len 0 []

-- What the two calls of `fcntl` in make_nonblocking lead to: -1 or 0, the descriptor closed or open,
-- and the flags that were set. `nonblock` is the value of O_NONBLOCK.
pub data Nonblocking : Type 0 where
  minus_one_closed : Nonblocking
  zero_with : ℕ → Nonblocking

unfoldable pub make_nonblocking : ℕ → Option ℕ → Bool → Nonblocking
make_nonblocking nonblock none sets = minus_one_closed
make_nonblocking nonblock (some flags) sets =
    if sets then zero_with (bit_or flags nonblock) else minus_one_closed
