-- ===== src/Wire/Decoder/Query.antt =====
-- DecodeQueryPacket on a packet in the layout that it expects.
use asabru_engine.Common.{ℕ, ◌≤◌, ◌≡◌, false, List, ◌++◌}
use asabru_engine.Common.{length, ok, some}
use asabru_engine.Wire.Packets.{IsU64}
use asabru_engine.Wire.Writer.{string_bytes, varint_bytes}
use asabru_engine.Wire.Reader.{◌>>=◌}
use asabru_engine.Wire.Reader.At.{reader}
use asabru_engine.Wire.Strings.{max_string}
use asabru_engine.Wire.Decoder.{decode_query_packet, decode_query_body, QueryFields}
use asabru_engine.Wire.Decoder.Fields.{
  number_then, not_empty-append_left, string_then, more_varint, more_string, some_string,
  read_string-into_empty,
}

pub record QueryFits (q : QueryFields) (stage : ℕ) : Type 0 where
  pub type_fits : IsU64 q.packet_type
  pub id_fits : length q.query_id ≤ max_string
  pub stage_fits : IsU64 stage
  pub compression_fits : IsU64 q.compression
  pub query_fits : length q.query ≤ max_string

abbrev pub query_bytes : QueryFields → ℕ → List ℕ
query_bytes q stage =
    varint_bytes 10 q.packet_type
    ++ (string_bytes q.query_id
        ++ (varint_bytes 10 stage ++ (varint_bytes 10 q.compression ++ string_bytes q.query)))

-- DecodeQueryPacket reads every field of a query, and answers `false`, its answer on failure.
pub decode_query_packet-bytes :
    (q : QueryFields) (stage : ℕ) (pre rest : List ℕ)
    → QueryFits q stage
    → decode_query_packet (reader pre (query_bytes q stage ++ rest))
      ≡ ok ((some q, false), reader (pre ++ query_bytes q stage) rest)
unfolding decode_query_packet decode_query_body
decode_query_packet-bytes q stage pre rest f =
    number_then _ _ rest _ _ q.packet_type f.type_fits (more_string q.query_id _) (
      string_then _ _ rest _ _ q.query_id f.id_fits (
        rw (not_empty-append_left behind_id rest (more_varint stage _)) (
          number_then _ _ rest _ _ stage f.stage_fits (more_varint q.compression _) (
            number_then _ _ rest _ _ q.compression f.compression_fits (some_string q.query)
              (rw (read_string-into_empty q.query _ rest f.query_fits, ◌>>=◌))))))
  where
    behind_id : List ℕ
    behind_id = varint_bytes 10 stage ++ (varint_bytes 10 q.compression ++ string_bytes q.query)
