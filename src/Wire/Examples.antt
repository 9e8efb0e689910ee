-- ===== src/Wire/Examples.antt =====
-- Runs of the codec on small inputs, and its theorems at such inputs.
use asabru_engine.Common.{ℕ, ◌≡◌, refl, true, false, List, [], ◌∷◌, ◌++◌, ok, fault, some, arith}
use asabru_engine.Common.{length, drop, leb, if◌then◌else◌}
use asabru_engine.Wire.Packets.{ClientHelloPacket, ServerHelloPacket}
use asabru_engine.Wire.Writer.{varint_bytes, string_bytes, write_string}
use asabru_engine.Wire.Writer.Appends.{writer, write_string-writer}
use asabru_engine.Wire.Reader.{read_varint64, read_string, varint_loop, read_byte, ◌>>=◌}
use asabru_engine.Wire.Reader.At.{reader}
use asabru_engine.Wire.Varint.RoundTrip.{read_varint64-varint_bytes}
use asabru_engine.Wire.Varint.Total.{Takes, read_varint64-Takes}
use asabru_engine.Wire.Strings.{read_string-string_bytes}
use asabru_engine.Wire.Encoder.{hello_info, encode_hello_packet}
use asabru_engine.Wire.Encoder.Hello.{encode_hello_packet-message, hello_message, hello_of}
use asabru_engine.Wire.Exchange.{decode-hello_message}
use asabru_engine.Wire.Lifetime.{
  Packets, Reach, here, next, decodes, encodes, construct_decoder, construct_encoder,
  destroy_packet_object, no_packets, Reach-destroys,
}
use asabru_engine.Wire.Decoder.{get_packet_type, decode_server_packets, decode_client_hello_packet}
use asabru_engine.Wire.Decoder.Fields.{client_hello_bytes}
use asabru_engine.Wire.Decoder.Hello.{decode_client_hello_packet-bytes}

varint_300 : varint_bytes 10 300 ≡ 0xac ∷ 0x02 ∷ []
unfolding varint_bytes
varint_300 = refl

read_300 :
    read_varint64 (reader [] (0xac ∷ 0x02 ∷ 7 ∷ []))
    ≡ ok ((300, true), reader (0xac ∷ 0x02 ∷ []) (7 ∷ []))
unfolding read_varint64 varint_loop read_byte
read_300 = refl

read_three : read_varint64 (reader [] (3 ∷ 7 ∷ [])) ≡ ok ((3, true), reader (3 ∷ []) (7 ∷ []))
unfolding read_varint64 varint_loop read_byte
read_three = refl

read_varint64-varint_bytes_example :
    read_varint64 (reader (9 ∷ []) (varint_bytes 10 300 ++ (7 ∷ [])))
    ≡ ok ((300, true), reader ((9 ∷ []) ++ varint_bytes 10 300) (7 ∷ []))
read_varint64-varint_bytes_example =
    read_varint64-varint_bytes 300 (9 ∷ []) (7 ∷ []) (omega arith) refl

read_varint64-Takes_example :
    Takes 10 [] (0xac ∷ 0x02 ∷ []) (read_varint64 (reader [] (0xac ∷ 0x02 ∷ [])))
read_varint64-Takes_example = read_varint64-Takes [] 0xac (0x02 ∷ []) (omega arith)

read_string-string_bytes_example :
    read_string [] (reader [] (string_bytes (65 ∷ 66 ∷ []) ++ []))
    ≡ ok ((65 ∷ 66 ∷ [], false), reader (string_bytes (65 ∷ 66 ∷ [])) [])
read_string-string_bytes_example =
    read_string-string_bytes [] (65 ∷ 66 ∷ []) [] [] (omega arith) refl

abbrev four_free : List ℕ
four_free = 0 ∷ 0 ∷ 0 ∷ 0 ∷ []

write_string-writer_example : write_string (65 ∷ 66 ∷ []) (writer 4 [] four_free) ≡ (
    if leb (length (string_bytes (65 ∷ 66 ∷ []))) 4
    then ok (
        writer 4
          (string_bytes (65 ∷ 66 ∷ []))
          (drop (length (string_bytes (65 ∷ 66 ∷ []))) four_free))
    else fault)
write_string-writer_example = write_string-writer (65 ∷ 66 ∷ []) 4 [] four_free (omega arith)

abbrev some_client : ClientHelloPacket
some_client = record {
  client_name = 99 ∷ 108 ∷ [];
  version_major = 22;
  version_minor = 9;
  protocol_version = 54405;
  database = [];
  username = 117 ∷ [];
  password = [];
}

decode_client_hello_packet-bytes_example :
    decode_client_hello_packet (reader (0 ∷ []) (client_hello_bytes some_client ++ []))
    ≡ ok ((some_client, true), reader ((0 ∷ []) ++ client_hello_bytes some_client) [])
decode_client_hello_packet-bytes_example =
    decode_client_hello_packet-bytes some_client (0 ∷ []) [] (omega arith)

abbrev some_server : ServerHelloPacket
some_server = hello_of hello_info

decode-hello_message_example :
    (get_packet_type >>= decode_server_packets) (reader [] (hello_message hello_info ++ (0 ∷ [])))
    ≡ ok (some some_server, reader (hello_message hello_info) (0 ∷ []))
decode-hello_message_example = decode-hello_message hello_info (0 ∷ []) (omega arith) refl

encode_hello_packet-message_example :
    let message = hello_message hello_info in
    encode_hello_packet (writer 4 [] four_free) ≡ (
      if leb (length message) 4
      then ok (true, writer 4 message (drop (length message) four_free))
      else fault)
encode_hello_packet-message_example = encode_hello_packet-message 4 [] four_free

-- A decoder and an encoder.
abbrev two_packets : Packets
two_packets = record {
  heap = (construct_encoder (construct_decoder no_packets.heap).1).1;
  living =
      (construct_encoder (construct_decoder no_packets.heap).1).0
      ∷ (construct_decoder no_packets.heap).0
      ∷ [];
}

two_packets-Reach : Reach no_packets two_packets
two_packets-Reach = next (next here decodes) encodes

Reach-destroys_example :
    destroy_packet_object (construct_decoder no_packets.heap).0 two_packets.heap ≡ fault
Reach-destroys_example =
    Reach-destroys two_packets-Reach
      ((construct_encoder (construct_decoder no_packets.heap).1).0 ∷ []) []
      (construct_decoder no_packets.heap).0 refl
