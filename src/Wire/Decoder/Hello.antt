-- ===== src/Wire/Decoder/Hello.antt =====
-- The decoders of the two Hello packets on packets in the protocol's layout.
use asabru_engine.Common.{ℕ, ◌<◌, ◌≡◌, Bool, true, false}
use asabru_engine.Common.{List, [], ◌++◌, append-nil, ok}
use asabru_engine.Wire.Packets.{ClientHelloPacket, ServerHelloPacket}
use asabru_engine.Wire.Writer.{varint_bytes}
use asabru_engine.Wire.Reader.{read_varint64, ◌>>=◌}
use asabru_engine.Wire.Reader.At.{reader, not_empty}
use asabru_engine.Wire.Varint.RoundTrip.{read_varint64-varint_bytes}
use asabru_engine.Wire.Decoder.{decode_client_hello_packet, decode_server_hello_packet}
use asabru_engine.Wire.Decoder.Fields.{
  client_hello_bytes, server_hello_bytes, ClientHelloFits, ServerHelloFits, more_varint,
  more_string, string_then, number_then, read_string-into_empty, read_varint64-last_byte,
}

-- DecodeClientHelloPacket recovers every field of a client's Hello, also where the packet is all
-- that the buffer holds.
pub decode_client_hello_packet-bytes :
    (h : ClientHelloPacket) (pre rest : List ℕ)
    → ClientHelloFits h
    → decode_client_hello_packet (reader pre (client_hello_bytes h ++ rest))
      ≡ ok ((h, true), reader (pre ++ client_hello_bytes h) rest)
unfolding decode_client_hello_packet
decode_client_hello_packet-bytes h pre rest f = string_then _ _ rest _ _ h.client_name f.name_fits (
    number_then _ _ rest _ _ h.version_major f.major_fits (more_varint h.version_minor _) (
      number_then _ _ rest _ _ h.version_minor f.minor_fits (more_varint h.protocol_version _) (
        number_then _ _ rest _ _ h.protocol_version f.protocol_fits (more_string h.database _) (
          string_then _ _ rest _ _ h.database f.database_fits (
            string_then _ _ rest _ _ h.username f.username_fits
              (rw (read_string-into_empty h.password _ rest f.password_fits, ◌>>=◌)))))))

-- The reads of a server's Hello up to its last field, whatever that one gives.
server_hello_prefix :
    (h : ServerHelloPacket) (pre rest : List ℕ) (patch : ℕ) (found : Bool)
    → ServerHelloFits h
    → ((before : List ℕ)
        → read_varint64 (reader before (varint_bytes 10 h.version_patch ++ rest))
          ≡ ok ((patch, found), reader (before ++ varint_bytes 10 h.version_patch) rest))
    → decode_server_hello_packet (reader pre (server_hello_bytes h ++ rest))
      ≡ ok ((record h { version_patch = patch }, true), reader (pre ++ server_hello_bytes h) rest)
unfolding decode_server_hello_packet
server_hello_prefix h pre rest patch found f last = string_then _ _ rest _ _ h.name f.name_fits (
    number_then _ _ rest _ _ h.version_major f.major_fits (more_varint h.version_minor _) (
      number_then _ _ rest _ _ h.version_minor f.minor_fits (more_varint h.revision _) (
        number_then _ _ rest _ _ h.revision f.revision_fits (more_string h.tz _) (
          string_then _ _ rest _ _ h.tz f.tz_fits
            (string_then _ _ rest _ _ h.display_name f.display_fits (rw (last _, ◌>>=◌)))))))

-- DecodeServerHelloPacket recovers every field of a server's Hello, if the buffer goes on behind it.
pub decode_server_hello_packet-bytes :
    (h : ServerHelloPacket) (pre rest : List ℕ)
    → ServerHelloFits h
    → not_empty rest ≡ true
    → decode_server_hello_packet (reader pre (server_hello_bytes h ++ rest))
      ≡ ok ((h, true), reader (pre ++ server_hello_bytes h) rest)
decode_server_hello_packet-bytes h pre rest f more =
    server_hello_prefix h pre rest h.version_patch true f
      λ before. read_varint64-varint_bytes h.version_patch before rest f.patch_fits more

-- Where a server's Hello is all that the buffer holds, its version patch (below 128) is lost: the
-- decoder answers 0 for it, and every other field as it was sent, and still reports success.
pub decode_server_hello_packet-lost_patch :
    (h : ServerHelloPacket) (pre : List ℕ)
    → ServerHelloFits h
    → h.version_patch < 128
    → decode_server_hello_packet (reader pre (server_hello_bytes h))
      ≡ ok ((record h { version_patch = 0 }, true), reader (pre ++ server_hello_bytes h) [])
decode_server_hello_packet-lost_patch h pre f small =
    rw (append-nil (server_hello_bytes h)) at (whole)
  where
    whole :
        decode_server_hello_packet (reader pre (server_hello_bytes h ++ []))
        ≡ ok ((record h { version_patch = 0 }, true), reader (pre ++ server_hello_bytes h) [])
    whole = server_hello_prefix h pre [] 0 false f λ before.
        rw (append-nil (varint_bytes 10 h.version_patch))
          (read_varint64-last_byte h.version_patch before small)
