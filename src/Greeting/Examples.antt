-- ===== src/Greeting/Examples.antt =====
-- A Hello in two pieces.
use asabru_engine.Common.{
  ℕ, ◌≤◌, ◌≡◌, refl, arith, List, [], ◌∷◌, ◌++◌, length, take, drop, All, some, none, ok,
}
use asabru_engine.Net.Receive.{Event, failed}
use asabru_engine.Net.Receive.Bytes.{deliver, joined, IsPiece}
use asabru_engine.Wire.Writer.{varint_bytes, string_bytes}
use asabru_engine.Wire.Encoder.{hello_info}
use asabru_engine.Wire.Encoder.Hello.{hello_of, hello_message}
use asabru_engine.Greeting.{greet, listen, understood, greet-listen}

abbrev front : List ℕ
front = take 20 (hello_message hello_info)

abbrev back : List ℕ
back = drop 20 (hello_message hello_info)

abbrev message_length : ℕ
message_length = length (hello_message hello_info)

-- The encoder starts from what the array holds, here the message with a byte behind it.
abbrev buffer : List ℕ
buffer = hello_message hello_info ++ (0 ∷ [])

abbrev closes_later : List Event
closes_later = record { recv = failed; fionread = none } ∷ []

cut : joined (front ∷ back ∷ []) ≡ hello_message hello_info
unfolding varint_bytes string_bytes
cut = refl

room : message_length ≤ length buffer
unfolding varint_bytes string_bytes
room = omega arith

pieces-IsPiece : All IsPiece (front ∷ back ∷ [])
unfolding varint_bytes string_bytes
pieces-IsPiece = (omega arith, (omega arith, tt))

greet-listen_example :
    (greet buffer message_length ≡ ok (hello_message hello_info))
    × (listen (deliver (front ∷ back ∷ []) ++ closes_later)
        ≡ ok (understood (some (record (hello_of hello_info) { version_patch = 0 })) closes_later))
greet-listen_example =
    greet-listen buffer message_length room (omega arith) front (back ∷ []) closes_later
      pieces-IsPiece cut
