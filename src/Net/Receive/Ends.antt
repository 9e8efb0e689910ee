-- ===== src/Net/Receive/Ends.antt =====
-- When ReceiveBytes comes back.
use asabru_engine.Common.{ℕ, zero, suc, ◌≤◌, ◌≡◌, refl, ◌==◌, arith, take, if◌then◌else◌}
use asabru_engine.Common.{
  Bool, true, false, Option, none, some, List, [], ◌∷◌, ◌++◌, inl, inr, ◌⊎◌, Bool-cases, List-cases,
}
use asabru_engine.Net.Receive.{
  bytes, interrupted, failed, Event, Outcome, returns, waits, read_buffer, clamp_arg,
  is_serial_data_available, receive_loop, receive_bytes,
}
use asabru_engine.Net.Receive.Bytes.{Recv-cases}

-- A `recv` that fails, finds the connection closed, or brings bytes behind which FIONREAD reports none.
abbrev pub is_last : Event → Bool
is_last e = elim e.recv [
  | interrupted ↦ false
  | failed ↦ true
  | bytes buf ↦ elim buf [ [] ↦ true | b ∷ bs ↦ is_serial_data_available e.fionread == 0 ]
]

-- What is left behind the first such.
unfoldable pub behind_last : List Event → Option (List Event)
behind_last [] = none
behind_last (e ∷ events) =
    let later = behind_last events in if is_last e then some events else later

abbrev Ends : List Event → Outcome (List ℕ) → Type 0
Ends events r =
    ((behind_last events ≡ none) × (r ≡ waits))
    ⊎ ((rest : List Event) × (text : List ℕ) × (behind_last events ≡ some rest)
        × (r ≡ returns text rest))

take_some :
    (b : ℕ) (bs : List ℕ) (arg : ℕ) → 1 ≤ arg → (more : List ℕ) × (take arg (b ∷ bs) ≡ b ∷ more)
take_some b bs zero h = absurd (omega arith)
take_some b bs (suc n) h = (take n bs, refl)

take_nil : (arg : ℕ) → take {A = ℕ} arg [] ≡ []
take_nil zero = refl
take_nil (suc n) = refl

receive_loop_cases :
    (events : List Event) (ret : List ℕ) (arg : ℕ)
    → 1 ≤ arg
    → Ends events (receive_loop events ret arg)
unfolding receive_loop behind_last
receive_loop_cases [] ret arg h = inl (refl, refl)
receive_loop_cases (e ∷ events) ret arg h = elim (Recv-cases e.recv) [
  | inl again ↦ rw (again, receive_loop) (receive_loop_cases events ret arg h)
  | inr (inl error) ↦ inr (events, ret, ground arith, ground arith)
  | inr (inr (buf, got)) ↦ elim (List-cases buf) [
    | inl closed ↦ inr (events, ret, ground (arith, take_nil arg), ground (arith, take_nil arg))
    | inr (b, bs, some_bytes) ↦
        let (more, taken) = take_some b bs arg h in
        let next = is_serial_data_available e.fionread in
        elim (Bool-cases (next == 0)) [
          | inl last ↦ inr (events, ret ++ (b ∷ more), ground arith, ground arith)
          | inr on ↦
              rw (got, receive_loop, behind_last)
                (rw (some_bytes, receive_loop)
                  (rw (taken, on, receive_loop)
                    (receive_loop_cases events (ret ++ (b ∷ more)) (clamp_arg next)
                      (ground arith))))
        ]
  ]
]

-- ReceiveBytes comes back exactly when the kernel gives an answer that is the last one, whatever came
-- before it, and it leaves what is behind that answer; without one it waits.
pub receive_bytes_cases :
    (events : List Event)
    → ((behind_last events ≡ none) × (receive_bytes events ≡ waits))
      ⊎ ((rest : List Event) × (text : List ℕ) × (behind_last events ≡ some rest)
          × (receive_bytes events ≡ returns text rest))
unfolding receive_bytes
receive_bytes_cases events = receive_loop_cases events [] read_buffer (omega arith)
