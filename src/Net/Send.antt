-- ===== src/Net/Send.antt =====
-- Both SendBytes of src/socket/Socket.cpp and the one of src/socket/SSLSocket.cpp: one call of `send`, or
-- of `SSL_write`, which may take a part of the bytes only.
use asabru_engine.Common.{ℕ, zero, suc, ◌≤◌, ◌≡◌, ◌↔◌, refl, ap, arith, length, take}
use asabru_engine.Common.{Bool, true, false, List, [], ◌∷◌}
use asabru_engine.Net.Receive.Bytes.{take_all}

-- What the call answers: how many bytes it took, or -1.
pub data Sent : Type 0 where
  took : ℕ → Sent
  refused : Sent

-- What goes out of the bytes.
abbrev pub gone_out : Sent → List ℕ → List ℕ
gone_out (took n) s = take n s
gone_out refused s = []

-- SendBytes(char *, int) does not look at the answer.
unfoldable pub send_bytes : Sent → List ℕ → List ℕ
send_bytes answer s = gone_out answer s

-- SendBytes(void *, int)
unfoldable pub send_buffer : Sent → List ℕ → Bool × List ℕ
send_buffer refused s = (false, gone_out refused s)
send_buffer (took n) s = (true, gone_out (took n) s)

unfoldable pub ssl_send_bytes : Sent → List ℕ → List ℕ
ssl_send_bytes answer s = gone_out answer s

take-whole : (n : ℕ) (s : List ℕ) → take n s ≡ s → length s ≤ n
take-whole zero [] e = omega arith
take-whole zero (b ∷ s) e = cc
take-whole (suc n) [] e = omega arith
take-whole (suc n) (b ∷ s) e = omega (arith, take-whole n s (ap tail e))
  where
    tail : List ℕ → List ℕ
    tail [] = []
    tail (x ∷ xs) = xs

-- SendBytes answers `false` exactly where nothing is sent for an error. Where it answers `true` all is
-- sent exactly if the call took all; a part that was left is not sent by any further call.
pub send_buffer_cases :
    (s : List ℕ) (n : ℕ)
    → (send_buffer refused s ≡ (false, []))
      × ((send_buffer (took n) s).0 ≡ true)
      × (((send_buffer (took n) s).1 ≡ s) ↔ (length s ≤ n))
unfolding send_buffer
send_buffer_cases s n = (refl, refl, (λ e. take-whole n s e, λ h. take_all s n h))
