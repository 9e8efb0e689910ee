-- ===== src/Net/Receive/Bytes.antt =====
-- What ReceiveBytes returns.
use asabru_engine.Common.{ℕ, zero, suc, ◌≤◌, ◌≡◌, ◌≢◌, refl, ap, ◌∙◌, ◌==◌}
use asabru_engine.Common.{false, Option, none, some, List, [], ◌∷◌, ◌++◌, length, take, arith}
use asabru_engine.Common.{append_assoc, append-nil, All, inl, inr, ◌⊎◌, List-cases, ◌↔◌}
use asabru_engine.Net.Receive.{
  Recv, bytes, interrupted, failed, Event, returns, read_buffer, clamp_arg,
  is_serial_data_available, receive_loop, receive_bytes,
}

-- The result of the first `recv` that no signal interrupts.
unfoldable pub first_answer : List Event → Option Recv
first_answer [] = none
first_answer (e ∷ events) = elim e.recv [
  | interrupted ↦ first_answer events
  | failed ↦ some failed
  | bytes buf ↦ some (bytes buf)
]

-- The peer closed the connection, or the `recv` failed.
abbrev pub IsGone : Option Recv → Type 0
IsGone a = (a ≡ some failed) ⊎ (a ≡ some (bytes []))

pub Recv-cases :
    (r : Recv) → (r ≡ interrupted) ⊎ ((r ≡ failed) ⊎ ((buf : List ℕ) × (r ≡ bytes buf)))
Recv-cases interrupted = inl refl
Recv-cases failed = inr (inl refl)
Recv-cases (bytes buf) = inr (inr (buf, refl))

-- Once something was received the result is not empty.
loop_not_empty :
    (events : List Event) (r : ℕ) (ret : List ℕ) (arg : ℕ) (rest : List Event)
    → receive_loop events (r ∷ ret) arg ≢ returns [] rest
unfolding receive_loop
loop_not_empty [] r ret arg rest e = cc
loop_not_empty (x ∷ events) r ret arg rest e = elim (Recv-cases x.recv) [
  | inl again ↦ ground (arith, loop_not_empty events r ret arg rest)
  | inr (inl error) ↦ ground arith
  | inr (inr (buf, got)) ↦ elim (List-cases (take arg buf)) [
    | inl closed ↦ ground arith
    | inr (b, bs, some_bytes) ↦ ground (
      arith,
      loop_not_empty events r (ret ++ (b ∷ bs)) (clamp_arg (is_serial_data_available x.fionread))
          rest,
    )
  ]
]

some_taken : (n : ℕ) (buf : List ℕ) → take (suc n) buf ≡ [] → buf ≡ []
some_taken n [] e = refl
some_taken n (b ∷ buf) e = cc

empty→gone :
    (events rest : List Event)
    → receive_loop events [] read_buffer ≡ returns [] rest
    → IsGone (first_answer events)
unfolding receive_loop first_answer
empty→gone [] rest e = cc
empty→gone (x ∷ events) rest e = elim (Recv-cases x.recv) [
  | inl again ↦ rw (again, first_answer) (empty→gone events rest (ground arith))
  | inr (inl error) ↦ inl (rw (error, first_answer))
  | inr (inr (buf, got)) ↦ elim (List-cases (take read_buffer buf)) [
    | inl closed ↦ inr (rw (got, first_answer, some_taken 1023 buf closed))
    | inr (b, bs, some_bytes) ↦ absurd (
        ground (
          arith,
          loop_not_empty events b bs (clamp_arg (is_serial_data_available x.fionread)) rest,
        ))
  ]
]

gone→empty :
    (events : List Event)
    → IsGone (first_answer events)
    → (rest : List Event) × (receive_loop events [] read_buffer ≡ returns [] rest)
unfolding receive_loop first_answer
gone→empty [] (inl e) = cc
gone→empty [] (inr e) = cc
gone→empty (x ∷ events) gone = elim (Recv-cases x.recv) [
  | inl again ↦
      let (rest, e) = gone→empty events (rw (again, first_answer) at gone) in
      (rest, rw (again, receive_loop) e)
  | inr (inl error) ↦ (events, rw (error, receive_loop))
  | inr (inr (buf, got)) ↦
      (events, rw (got, receive_loop) (rw (no_bytes buf (rw (got, first_answer) at gone))))
]
  where
    no_bytes : (buf : List ℕ) → IsGone (some (bytes buf)) → take read_buffer buf ≡ []
    no_bytes [] g = refl
    no_bytes (b ∷ buf) (inl e) = cc
    no_bytes (b ∷ buf) (inr e) = cc

-- The relay takes an empty result for the end of the stream. ReceiveBytes returns one exactly when
-- its first uninterrupted `recv` finds the connection closed or fails, a timeout included.
pub receive_bytes-empty_iff :
    (events : List Event)
    → ((rest : List Event) × (receive_bytes events ≡ returns [] rest))
      ↔ IsGone (first_answer events)
unfolding receive_bytes
receive_bytes-empty_iff events = (λ e. empty→gone events e.0 e.1, gone→empty events)

-- Pieces of a message as the kernel delivers them: behind each one FIONREAD reports the size of the next.
unfoldable pub deliver : List (List ℕ) → List Event
deliver [] = []
deliver (piece ∷ []) = record { recv = bytes piece; fionread = some 0 } ∷ []
deliver (piece ∷ next ∷ pieces) =
    record { recv = bytes piece; fionread = some (length next) } ∷ deliver (next ∷ pieces)

abbrev pub joined : List (List ℕ) → List ℕ
joined [] = []
joined (piece ∷ pieces) = piece ++ joined pieces

-- A piece is not empty and fits the buffer.
abbrev pub IsPiece : List ℕ → Type 0
IsPiece piece = (1 ≤ length piece) × (length piece ≤ read_buffer)

pub take_all : (xs : List ℕ) (n : ℕ) → length xs ≤ n → take n xs ≡ xs
take_all [] zero h = refl
take_all [] (suc n) h = refl
take_all (x ∷ xs) zero h = absurd (omega arith)
take_all (x ∷ xs) (suc n) h = ap (◌∷◌ x) (take_all xs n (omega arith))

receive_loop-deliver :
    (pieces : List (List ℕ)) (piece ret : List ℕ) (arg : ℕ) (later : List Event)
    → All IsPiece (piece ∷ pieces)
    → length piece ≤ arg
    → receive_loop (deliver (piece ∷ pieces) ++ later) ret arg
      ≡ returns (ret ++ joined (piece ∷ pieces)) later
unfolding receive_loop deliver
receive_loop-deliver pieces [] ret arg later h fits = absurd (omega (arith, h.0))
receive_loop-deliver [] (b ∷ bs) ret arg later h fits =
    rw (take_all (b ∷ bs) arg fits, append-nil bs, receive_loop)
receive_loop-deliver (next ∷ pieces) (b ∷ bs) ret arg later h fits =
    rw (take_all (b ∷ bs) arg fits, receive_loop)
      (rw more (
        receive_loop-deliver pieces next (ret ++ (b ∷ bs)) (clamp_arg (length next)) later h.1 room
        ∙ rw (append_assoc ret (b ∷ bs) (joined (next ∷ pieces)))))
  where
    more : (length next == 0) ≡ false
    more = ground (arith, h.1.0)

    room : length next ≤ clamp_arg (length next)
    room = unfold clamp_arg in ground (arith, h.1.0)

-- A message that arrives in pieces of at most 1024 bytes, of which each but the last is followed by
-- the next before FIONREAD is asked, is returned whole, and nothing behind it is read.
pub receive_bytes-deliver :
    (piece : List ℕ) (pieces : List (List ℕ)) (later : List Event)
    → All IsPiece (piece ∷ pieces)
    → receive_bytes (deliver (piece ∷ pieces) ++ later) ≡ returns (joined (piece ∷ pieces)) later
unfolding receive_bytes
receive_bytes-deliver piece pieces later h =
    receive_loop-deliver pieces piece [] read_buffer later h h.0.1
