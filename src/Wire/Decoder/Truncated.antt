-- ===== src/Wire/Decoder/Truncated.antt =====
-- The decoders on packets that stop early: the methods go on reading after a failed read.
use asabru_engine.Common.{ℕ, ◌≤◌, ◌≡◌, false, List, [], ◌++◌}
use asabru_engine.Common.{length, ok, fault, append-nil}
use asabru_engine.Wire.Packets.{Text}
use asabru_engine.Wire.Writer.{string_bytes}
use asabru_engine.Wire.Reader.{read_string, ◌>>=◌}
use asabru_engine.Wire.Reader.At.{reader}
use asabru_engine.Wire.Strings.{max_string}
use asabru_engine.Wire.Varint.Total.{read_varint64-end}
use asabru_engine.Wire.Decoder.{decode_client_hello_packet, decode_server_hello_packet}
use asabru_engine.Wire.Decoder.Fields.{read_string-into_empty}

-- A Hello that stops right behind its first text makes both decoders read outside the buffer.
pub decode_hello-truncated :
    (name : Text) (pre : List ℕ)
    → length name ≤ max_string
    → (decode_client_hello_packet (reader pre (string_bytes name)) ≡ fault)
      × (decode_server_hello_packet (reader pre (string_bytes name)) ≡ fault)
unfolding decode_client_hello_packet decode_server_hello_packet
decode_hello-truncated name pre h = (
  rw (first, ◌>>=◌) (rw (read_varint64-end (pre ++ string_bytes name), ◌>>=◌)),
  rw (first, ◌>>=◌) (rw (read_varint64-end (pre ++ string_bytes name), ◌>>=◌)),
)
  where
    first :
        read_string [] (reader pre (string_bytes name))
        ≡ ok ((name, false), reader (pre ++ string_bytes name) [])
    first = rw (append-nil (string_bytes name)) at (read_string-into_empty name pre [] h)
