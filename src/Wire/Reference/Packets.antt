-- ===== src/Wire/Reference/Packets.antt =====
-- The packets that CProtocolPacketDecoder decodes, in terms of the reference's fields.
use asabru_engine.Common.{ℕ, if◌then◌else◌, Bool, true, false, Option, none, some, []}
use asabru_engine.Wire.Packets.{ClientHelloPacket, ServerHelloPacket, Text}
use asabru_engine.Wire.Decoder.{QueryFields}
use asabru_engine.Wire.Reference.{Parser, pure, ◌>>=◌, number, text}

unfoldable pub client_hello : Parser (ClientHelloPacket × Bool)
client_hello = do
  (client_name, _) ← text []
  (version_major, _) ← number
  (version_minor, _) ← number
  (protocol_version, _) ← number
  (database, _) ← text []
  (username, _) ← text []
  (password, _) ← text []
  pure (
    record {
      client_name = client_name;
      version_major = version_major;
      version_minor = version_minor;
      protocol_version = protocol_version;
      database = database;
      username = username;
      password = password;
    },
    true,
  )

unfoldable pub server_hello : Parser (ServerHelloPacket × Bool)
server_hello = do
  (name, _) ← text []
  (version_major, _) ← number
  (version_minor, _) ← number
  (revision, _) ← number
  (tz, _) ← text []
  (display_name, _) ← text []
  (version_patch, _) ← number
  pure (
    record {
      name = name;
      version_major = version_major;
      version_minor = version_minor;
      revision = revision;
      tz = tz;
      display_name = display_name;
      version_patch = version_patch;
    },
    true,
  )

unfoldable pub query_body : ℕ → Text → Parser (Option QueryFields × Bool)
query_body packet_type query_id = do
  (stage, _) ← number
  (compression, _) ← number
  (query, _) ← text []
  pure (
    some (record {
      packet_type = packet_type;
      query_id = query_id;
      compression = compression;
      query = query;
    }),
    false,
  )

unfoldable pub named_query : ℕ → Text × Bool → Parser (Option QueryFields × Bool)
unfolding query_body
named_query packet_type (query_id, read) =
    if read then query_body packet_type query_id else pure (none, false)

unfoldable pub typed_query : ℕ × Bool → Parser (Option QueryFields × Bool)
unfolding named_query
typed_query (packet_type, found) =
    if found then text [] >>= named_query packet_type else pure (none, false)

unfoldable pub query_packet : Parser (Option QueryFields × Bool)
unfolding typed_query
query_packet = number >>= typed_query
