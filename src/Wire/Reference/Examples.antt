-- ===== src/Wire/Reference/Examples.antt =====
-- The reference on a packet that is cut off, and on bytes that no encoder writes.
use asabru_engine.Common.{ℕ, ◌≡◌, refl, true, List, [], ◌∷◌, arith}
use asabru_engine.Wire.Reader.{read_varint64}
use asabru_engine.Wire.Reader.At.{reader}
use asabru_engine.Wire.Reference.Numbers.{read_varint64-number}
use asabru_engine.Wire.Decoder.{
  decode_client_hello_packet, decode_server_hello_packet, decode_query_packet,
}
use asabru_engine.Wire.Reference.{parsed, overrun, number, text, Agrees}
use asabru_engine.Wire.Reference.Packets.{client_hello, server_hello, query_packet}
use asabru_engine.Wire.Reference.Decoders.{decoders-Follows}

read_varint64-number_example :
    Agrees []
      (133 ∷ 128 ∷ 0 ∷ 7 ∷ [])
      (read_varint64 (reader [] (133 ∷ 128 ∷ 0 ∷ 7 ∷ [])))
      (number (133 ∷ 128 ∷ 0 ∷ 7 ∷ []))
read_varint64-number_example = read_varint64-number [] (133 ∷ 128 ∷ 0 ∷ 7 ∷ []) (omega arith)

abbrev cut_hello : List ℕ
cut_hello = 2 ∷ 104 ∷ 105 ∷ 1 ∷ 1 ∷ 1 ∷ 1 ∷ 9 ∷ 100 ∷ []

decoders-Follows_example :
    Agrees [] cut_hello (decode_client_hello_packet (reader [] cut_hello)) (client_hello cut_hello)
    × Agrees [] cut_hello
        (decode_server_hello_packet (reader [] cut_hello))
        (server_hello cut_hello)
    × Agrees [] cut_hello (decode_query_packet (reader [] cut_hello)) (query_packet cut_hello)
decoders-Follows_example = decoders-Follows [] cut_hello (omega arith)

-- Five, written in three bytes.
long_five : number (133 ∷ 128 ∷ 0 ∷ 7 ∷ []) ≡ parsed (5, true) (7 ∷ [])
unfolding number
long_five = refl

-- A database name of nine bytes, of which one is there.
hello_lacks_input : client_hello cut_hello ≡ overrun
unfolding client_hello number text
hello_lacks_input = refl
