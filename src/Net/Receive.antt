-- ===== src/Net/Receive.antt =====
-- Socket::ReceiveBytes, ReceiveLine, Receive and SendLine of Socket.cpp.
pub mod Bytes
pub mod Ends
pub mod Line
use asabru_engine.Common.{ℕ, zero, suc, ◌+◌, ◌≤◌, ltb, leb, ◌==◌, if◌then◌else◌, length, take}
use asabru_engine.Common.{Bool, true, false, List, [], ◌∷◌, ◌++◌, Option, none, some}

-- The result of one `recv`: bytes (none: the peer closed), or -1 with `errno` EINTR or another.
pub data Recv : Type 0 where
  bytes : List ℕ → Recv
  interrupted failed : Recv

-- A call with what the kernel answers next: the result of `recv`, and what `ioctl(FIONREAD)` would
-- report after it (none: the ioctl fails).
pub record Event : Type 0 where
  pub recv : Recv
  pub fionread : Option ℕ

-- What a method returns with the events that it left, or that a `recv` never comes back.
pub data Outcome (A : Type 0) : Type 0 where
  returns : A → List Event → Outcome A
  waits : Outcome A

abbrev pub read_buffer : ℕ
read_buffer = 1024

unfoldable pub is_serial_data_available : Option ℕ → ℕ
is_serial_data_available none = 0
is_serial_data_available (some n) = n

-- `if (arg > READ_BUFFER) arg = READ_BUFFER;`
unfoldable pub clamp_arg : ℕ → ℕ
clamp_arg arg = if ltb read_buffer arg then read_buffer else arg

-- `recv` gives at most the `arg` bytes that it was asked for.
-- The loop of ReceiveBytes: `ret` is what was received so far, `arg` the size asked for.
unfoldable pub receive_loop : List Event → List ℕ → ℕ → Outcome (List ℕ)
unfolding is_serial_data_available clamp_arg
receive_loop [] ret arg = waits
receive_loop (e ∷ events) ret arg = elim e.recv [
  | interrupted ↦ receive_loop events ret arg
  | failed ↦ returns ret events
  | bytes buf ↦ elim (take arg buf) [
    | [] ↦ returns ret events
    | b ∷ bs ↦
        let next = is_serial_data_available e.fionread in
        elim (next == 0) [
          | true ↦ returns (ret ++ (b ∷ bs)) events
          | false ↦ receive_loop events (ret ++ (b ∷ bs)) (clamp_arg next)
        ]
  ]
]

unfoldable pub receive_bytes : List Event → Outcome (List ℕ)
unfolding receive_loop
receive_bytes events = receive_loop events [] read_buffer

-- The loop of ReceiveLine, which reads one byte at a time. `failed` here is any -1.
unfoldable pub line_loop : List Recv → List ℕ → Option (List ℕ × List Recv)
line_loop [] ret = none
line_loop (r ∷ rs) ret = elim r [
  | interrupted ↦ some ([], rs)
  | failed ↦ some ([], rs)
  | bytes buf ↦ elim (take 1 buf) [
    | [] ↦ some (ret, rs)
    | b ∷ _ ↦ elim (b == 10) [
      | true ↦ some (ret ++ (b ∷ []), rs)
      | false ↦ line_loop rs (ret ++ (b ∷ []))
    ]
  ]
]

unfoldable pub receive_line : List Recv → Option (List ℕ × List Recv)
unfolding line_loop
receive_line rs = line_loop rs []

-- Receive: the bytes that were put into the buffer and their number, or `false`.
unfoldable pub receive : Recv → ℕ → Option (List ℕ × ℕ)
receive (bytes buf) len = elim (take len buf) [
  | [] ↦ none
  | b ∷ bs ↦ some (b ∷ bs, length (b ∷ bs))
]
receive interrupted len = none
receive failed len = none

-- SendLine hands the line with a newline to `send`.
unfoldable pub send_line : List ℕ → List ℕ
send_line s = s ++ (10 ∷ [])

-- Peek: the results of the calls of `recv` with MSG_PEEK: true for 1. The last result, and the number
-- of rounds that did not give 1.
unfoldable pub peek_loop : List Bool → ℕ → Bool × ℕ
peek_loop [] i = (false, i)
peek_loop (r ∷ rs) i = let later = peek_loop rs (i + 1) in if r then (true, i) else later
