-- ===== src/Wire/Exchange.antt =====
-- A Hello message from the encoder to the decoder.
use asabru_engine.Common.{ℕ, ◌≡◌, Bool, true, arith}
use asabru_engine.Common.{List, [], ◌++◌, append_assoc, ok, some}
use asabru_engine.Wire.Packets.{ServerInfo, ServerHelloPacket}
use asabru_engine.Wire.Writer.{varint_bytes, string_bytes}
use asabru_engine.Wire.Reader.{ClickReadProtoBuffer, ◌>>=◌}
use asabru_engine.Wire.Reader.At.{reader, not_empty}
use asabru_engine.Wire.Encoder.{hello_info}
use asabru_engine.Wire.Encoder.Hello.{hello_of, hello_message}
use asabru_engine.Wire.Decoder.{get_packet_type, decode_server_packets, decode_server_hello_packet}
use asabru_engine.Wire.Decoder.Fields.{
  server_hello_bytes, ServerHelloFits, more_string, not_empty-append_right,
}
use asabru_engine.Wire.Decoder.Hello.{
  decode_server_hello_packet-bytes, decode_server_hello_packet-lost_patch,
}
use asabru_engine.Wire.Decoder.Types.{get_packet_type-varint_bytes}

server_packet-hello :
    {h : ServerHelloPacket} {found : Bool} (r s : ClickReadProtoBuffer)
    → decode_server_hello_packet r ≡ ok ((h, found), s)
    → decode_server_packets 0 r ≡ ok (some h, s)
unfolding decode_server_packets
server_packet-hello r s e = rw (e, ◌>>=◌)

-- A server's Hello message, of any fields within the limits, is recovered field by field if the
-- buffer goes on behind it.
pub decode-hello_message :
    (info : ServerInfo) (rest : List ℕ)
    → ServerHelloFits (hello_of info)
    → not_empty rest ≡ true
    → (get_packet_type >>= decode_server_packets) (reader [] (hello_message info ++ rest))
      ≡ ok (some (hello_of info), reader (hello_message info) rest)
unfolding varint_bytes string_bytes
decode-hello_message info rest f more =
    rw
      (
        append_assoc (varint_bytes 10 0) body rest,
        get_packet_type-varint_bytes 0 [] (body ++ rest) (omega arith)
            (not_empty-append_right body rest more),
        ◌>>=◌,
      )
      (server_packet-hello _ _
        (decode_server_hello_packet-bytes (hello_of info) (varint_bytes 10 0) rest f more))
  where
    body : List ℕ
    body = server_hello_bytes (hello_of info)

-- The message that EncodeHelloPacket writes, decoded from a buffer that holds nothing else, comes out
-- with the version patch 0, though the encoder sets it to 1.
pub decode-hello_lost_patch :
    (get_packet_type >>= decode_server_packets) (reader [] (hello_message hello_info))
    ≡ ok (
      some (record (hello_of hello_info) { version_patch = 0 }),
      reader (hello_message hello_info) [],
    )
decode-hello_lost_patch =
    rw
      (
        get_packet_type-varint_bytes 0 [] body (omega arith)
            (more_string (hello_of hello_info).name _),
        ◌>>=◌,
      )
      (server_packet-hello _ _ (
        decode_server_hello_packet-lost_patch (hello_of hello_info) (varint_bytes 10 0)
          (omega arith) (omega arith)))
  where
    body : List ℕ
    body = server_hello_bytes (hello_of hello_info)
