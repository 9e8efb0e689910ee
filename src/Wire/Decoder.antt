-- ===== src/Wire/Decoder.antt =====
-- CProtocolPacketDecoder. The decoder object is its read buffer. A method that fills a local packet
-- and prints it returns that packet here; the printing is not modelled.
pub mod Fields
pub mod Hello
pub mod Types
pub mod Query
pub mod Truncated
use asabru_engine.Common.{ℕ, ◌-◌, ◌^◌, Bool, true, false, none, some, Option, List, []}
use asabru_engine.Common.{◌==◌, if◌then◌else◌, Checked}
use asabru_engine.Wire.Packets.{ClientHelloPacket, ServerHelloPacket, ClientCode, client_code, Text}
use asabru_engine.Wire.Reader.{
  ClickReadProtoBuffer, Reads, pure, ◌>>=◌, new_reader, read_varint64, read_string,
}

unfoldable pub new_decoder : List ℕ → ℕ → Checked ClickReadProtoBuffer
unfolding new_reader
new_decoder buffer len = new_reader buffer len

-- `return -1` from a function of type `uint64_t`.
abbrev pub no_packet_type : ℕ
no_packet_type = 2 ^ 64 - 1

unfoldable pub get_packet_type : Reads ℕ
get_packet_type = do
  (packet_type, found) ← read_varint64
  if found then pure packet_type else pure no_packet_type

unfoldable pub decide_packet_type : Reads Bool
decide_packet_type = do
  (packet_type, found) ← read_varint64
  if found then pure false else pure false

-- What DecodeQueryPacket prints: the packet type, the query id, the compression and the query.
pub record QueryFields : Type 0 where
  pub packet_type : ℕ
  pub query_id : Text
  pub compression : ℕ
  pub query : Text

-- The last four reads of DecodeQueryPacket, whose results are ignored, and its `return 0`.
unfoldable pub decode_query_body : ℕ → Text → Reads (Option QueryFields × Bool)
decode_query_body packet_type query_id = do
  (stage, _) ← read_varint64
  (compression, _) ← read_varint64
  (query, _) ← read_string []
  pure (
    some (record {
      packet_type = packet_type;
      query_id = query_id;
      compression = compression;
      query = query;
    }),
    false,
  )

unfoldable pub decode_query_packet : Reads (Option QueryFields × Bool)
unfolding decode_query_body
decode_query_packet = do
  (packet_type, found) ← read_varint64
  if found
      then (do
        (query_id, read) ← read_string []
        if read then decode_query_body packet_type query_id else pure (none, false))
      else pure (none, false)

unfoldable pub decode_client_hello_packet : Reads (ClientHelloPacket × Bool)
decode_client_hello_packet = do
  (client_name, _) ← read_string []
  (version_major, _) ← read_varint64
  (version_minor, _) ← read_varint64
  (protocol_version, _) ← read_varint64
  (database, _) ← read_string []
  (username, _) ← read_string []
  (password, _) ← read_string []
  pure (
    record {
      client_name = client_name;
      version_major = version_major;
      version_minor = version_minor;
      protocol_version = protocol_version;
      database = database;
      username = username;
      password = password;
    },
    true,
  )

-- `none`: "Invalid Client Packet Type".
unfoldable pub decode_client_packet : ℕ → Reads (Option ClientHelloPacket)
decode_client_packet packet_type =
    if packet_type == 0
    then (do (hello, _) ← decode_client_hello_packet; pure (some hello))
    else pure none

-- The client's name, once it was read, and the result.
unfoldable pub decode_hello_packet : Reads (Option Text × Bool)
decode_hello_packet = do
  (packet_type, found) ← read_varint64
  if found
      then (if packet_type == client_code ClientCode.hello
          then (do
            (client_name, read) ← read_string []
            if read then pure (some client_name, true) else pure (none, false))
          else pure (none, false))
      else pure (none, false)

unfoldable pub decode_server_hello_packet : Reads (ServerHelloPacket × Bool)
decode_server_hello_packet = do
  (name, _) ← read_string []
  (version_major, _) ← read_varint64
  (version_minor, _) ← read_varint64
  (revision, _) ← read_varint64
  (tz, _) ← read_string []
  (display_name, _) ← read_string []
  (version_patch, _) ← read_varint64
  pure (
    record {
      name = name;
      version_major = version_major;
      version_minor = version_minor;
      revision = revision;
      tz = tz;
      display_name = display_name;
      version_patch = version_patch;
    },
    true,
  )

-- `none`: "Invalid Server Packet Type".
unfoldable pub decode_server_packets : ℕ → Reads (Option ServerHelloPacket)
decode_server_packets packet_type =
    if packet_type == 0
    then (do (hello, _) ← decode_server_hello_packet; pure (some hello))
    else pure none
