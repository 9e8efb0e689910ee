-- ===== src/Wire/Decoder/Types.antt =====
-- The packet type in front of a packet: GetPacketType and the two dispatchers.
use asabru_engine.Common.{ℕ, ◌≡◌, ◌≢◌, Bool, true, arith, some}
use asabru_engine.Common.{List, [], ◌∷◌, ◌++◌, append-nil, ok, ◌==◌, none}
use asabru_engine.Common.{Bool-cases, inl, inr}
use asabru_engine.Wire.Packets.{IsU64, ClientHelloPacket}
use asabru_engine.Wire.Writer.{varint_bytes}
use asabru_engine.Wire.Reader.{ClickReadProtoBuffer, read_varint64, ◌>>=◌}
use asabru_engine.Wire.Reader.At.{reader, not_empty}
use asabru_engine.Wire.Varint.RoundTrip.{read_varint64-varint_bytes}
use asabru_engine.Wire.Varint.{varint_loop-cut}
use asabru_engine.Wire.Decoder.{
  get_packet_type, decide_packet_type, no_packet_type, decode_client_packet, decode_server_packets,
  decode_client_hello_packet,
}
use asabru_engine.Wire.Decoder.Fields.{client_hello_bytes, ClientHelloFits, more_string}
use asabru_engine.Wire.Decoder.Hello.{decode_client_hello_packet-bytes}

-- GetPacketType gives the type that stands in front of a packet with a body.
pub get_packet_type-varint_bytes :
    (code : ℕ) (pre body : List ℕ)
    → IsU64 code
    → not_empty body ≡ true
    → get_packet_type (reader pre (varint_bytes 10 code ++ body))
      ≡ ok (code, reader (pre ++ varint_bytes 10 code) body)
unfolding get_packet_type
get_packet_type-varint_bytes code pre body h more =
    rw (read_varint64-varint_bytes code pre body h more, ◌>>=◌)

-- A packet that is one byte long, as Cancel and Ping are, is never recognised: whatever the byte,
-- GetPacketType answers with its error value.
pub get_packet_type-one_byte :
    (pre : List ℕ) (b : ℕ)
    → get_packet_type (reader pre (b ∷ [])) ≡ ok (no_packet_type, reader (pre ++ (b ∷ [])) [])
unfolding get_packet_type read_varint64
get_packet_type-one_byte pre b = rw (varint_loop-cut 9 0 0 pre b, ◌>>=◌)

-- DecidePacketType never answers `true`.
pub decide_packet_type-ne-true : (r s : ClickReadProtoBuffer) → decide_packet_type r ≢ ok (true, s)
unfolding decide_packet_type
decide_packet_type-ne-true r s e = ground arith

client_packet-hello :
    {h : ClientHelloPacket} {found : Bool} (r s : ClickReadProtoBuffer)
    → decode_client_hello_packet r ≡ ok ((h, found), s)
    → decode_client_packet 0 r ≡ ok (some h, s)
unfolding decode_client_packet
client_packet-hello r s e = rw (e, ◌>>=◌)

-- A client's whole Hello message, type included, goes through GetPacketType and DecodeClientPacket
-- with every field recovered.
pub decode_client_packet-bytes :
    (h : ClientHelloPacket)
    → ClientHelloFits h
    → (get_packet_type >>= decode_client_packet)
        (reader [] (varint_bytes 10 0 ++ client_hello_bytes h))
      ≡ ok (some h, reader (varint_bytes 10 0 ++ client_hello_bytes h) [])
decode_client_packet-bytes h f =
    rw
      (
        get_packet_type-varint_bytes 0 [] (client_hello_bytes h) (omega arith)
            (more_string h.client_name _),
        ◌>>=◌,
      )
      (client_packet-hello _ _ (
        rw (append-nil (client_hello_bytes h)) at
          (decode_client_hello_packet-bytes h (varint_bytes 10 0) [] f)))

-- Any other type than 0 leaves the buffer alone.
pub decode_packets-invalid :
    (code : ℕ) (r : ClickReadProtoBuffer)
    → code ≢ 0
    → (decode_client_packet code r ≡ ok (none, r)) × (decode_server_packets code r ≡ ok (none, r))
unfolding decode_client_packet decode_server_packets
decode_packets-invalid code r h = elim (Bool-cases (code == 0)) [
  | inl e ↦ absurd (h (ground arith))
  | inr e ↦ (rw e, rw e)
]
