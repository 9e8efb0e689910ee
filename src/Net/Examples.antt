-- ===== src/Net/Examples.antt =====
-- The theorems on ReceiveBytes and ReceiveLine on small scripts.
use asabru_engine.Common.{ℕ, ◌≡◌, none, some, List, [], ◌∷◌, arith}
use asabru_engine.Net.Receive.{
  bytes, interrupted, failed, Event, returns, waits, receive_bytes, receive_line, send_line,
}
use asabru_engine.Common.{◌⊎◌}
use asabru_engine.Net.Receive.Ends.{behind_last, receive_bytes_cases}
use asabru_engine.Net.Receive.Line.{byte_by_byte, receive_line-send_line}

abbrev hello : List ℕ
hello = 104 ∷ 105 ∷ []

abbrev world : List ℕ
world = 119 ∷ []

abbrev cut_off : List Event
cut_off =
    record { recv = interrupted; fionread = none } ∷ record { recv = failed; fionread = none } ∷ []

receive_line-send_line_example :
    (receive_line (byte_by_byte (send_line hello) []) ≡ some (send_line hello, []))
    × (receive_line (byte_by_byte hello (bytes [] ∷ [])) ≡ some (hello, []))
    × (receive_line (byte_by_byte hello (failed ∷ [])) ≡ some ([], []))
receive_line-send_line_example =
    receive_line-send_line hello [] ((λ e. omega (arith, e)), ((λ e. omega (arith, e)), tt))

receive_bytes_cases_example :
    ((behind_last cut_off ≡ none) × (receive_bytes cut_off ≡ waits))
    ⊎ ((rest : List Event) × (text : List ℕ) × (behind_last cut_off ≡ some rest)
        × (receive_bytes cut_off ≡ returns text rest))
receive_bytes_cases_example = receive_bytes_cases cut_off
