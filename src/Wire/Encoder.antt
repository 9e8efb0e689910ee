-- ===== src/Wire/Encoder.antt =====
-- CProtocolPacketEncoder: the server's Hello packet, and the bytes that go to the socket. The encoder
-- object is its write buffer; `cout` is not modelled.
pub mod Hello
use Prim.Native.Char.{code}
use Prim.Native.String.{String}
use asabru_engine.Common.{ℕ, List, [], ◌∷◌, Bool, true, leb, Checked, ok, ◌>>=◌}
use asabru_engine.Common.{if◌then◌else◌}
use asabru_engine.Wire.Packets.{
  ServerInfo, Text, server_code, ServerCode, dbms_version_major, revision,
  dbms_min_revision_with_server_timezone, dbms_min_revision_with_server_display_name,
  dbms_min_revision_with_version_patch,
}
use asabru_engine.Wire.Writer.{
  ClickWriteProtoBuffer, Writes, ◌then_write◌, nothing_written, new_writer, get_buffer,
  write_varint64, write_string, write_uint64,
}

-- The bytes of an ASCII text.
abbrev pub codes : String → Text
codes String.[] = []
codes (String.◌∷◌ c s) = code c ∷ codes s

unfoldable pub new_encoder : List ℕ → ℕ → Checked ClickWriteProtoBuffer
unfolding new_writer
new_encoder buffer len = new_writer buffer len

-- The fields that EncodeHelloPacket sets; the minor version is set from DBMS_VERSION_MAJOR.
abbrev pub hello_info : ServerInfo
hello_info = record {
  name = codes "ClickHouse server";
  timezone = codes "Israel";
  display_name = codes "Server version 22.9";
  version_major = dbms_version_major;
  version_minor = dbms_version_major;
  version_patch = 1;
  revision = revision;
}

-- The writes of EncodeHelloPacket on the fields of `info`.
unfoldable pub write_hello : ServerInfo → Writes
write_hello info =
    write_varint64 (server_code ServerCode.hello)
    then_write write_string info.name
    then_write write_uint64 info.version_major
    then_write write_uint64 info.version_minor
    then_write write_uint64 info.revision
    then_write (if leb dbms_min_revision_with_server_timezone info.revision
        then write_string info.timezone
        else nothing_written)
    then_write (if leb dbms_min_revision_with_server_display_name info.revision
        then write_string info.display_name
        else nothing_written)
    then_write (if leb dbms_min_revision_with_version_patch info.revision
        then write_uint64 info.version_patch
        else nothing_written)

unfoldable pub encode_hello_packet : ClickWriteProtoBuffer → Checked (Bool × ClickWriteProtoBuffer)
unfolding write_hello
encode_hello_packet w = write_hello hello_info w >>= λ w'. ok (true, w')

-- The array on the stack of DispatchBufferForSocket.
abbrev pub dispatch_room : ℕ
dispatch_room = 32000

-- The bytes that are passed to `send`, whose result is not looked at, and the result.
unfoldable pub dispatch_buffer_for_socket : ClickWriteProtoBuffer → Checked (Text × Bool)
unfolding get_buffer
dispatch_buffer_for_socket w = get_buffer dispatch_room w >>= λ p. ok (p.0, true)
