-- ===== src/Wire/Encoder/Hello.antt =====
-- EncodeHelloPacket writes a server's Hello message, and what a decoder makes of it.
use asabru_engine.Common.{drop, ◌>>=◌, ok, ◌≡◌, ◌<◌, true, fault, ℕ, ◌≤◌, ◌<◌, ◌^◌, arith}
use asabru_engine.Common.{List, ◌++◌, append_assoc, length}
use asabru_engine.Common.{le→leb, leb, if◌then◌else◌, Bool-cases, inl, inr}
use asabru_engine.Wire.Packets.{ServerInfo, ServerHelloPacket}
use asabru_engine.Wire.Writer.{varint_bytes}
use asabru_engine.Wire.Writer.Appends.{
  get_buffer-writer, get_buffer-overrun, writer, Appends-writer, Appends, then_write-Appends,
  write_varint64-Appends, write_string-Appends, write_uint64-Appends, Appends-regroup,
}
use asabru_engine.Wire.Encoder.{
  hello_info, write_hello, encode_hello_packet, dispatch_buffer_for_socket, dispatch_room,
}
use asabru_engine.Wire.Decoder.Fields.{server_hello_bytes}

-- The packet that a server's information stands for.
abbrev pub hello_of : ServerInfo → ServerHelloPacket
hello_of info = record {
  name = info.name;
  version_major = info.version_major;
  version_minor = info.version_minor;
  revision = info.revision;
  tz = info.timezone;
  display_name = info.display_name;
  version_patch = info.version_patch;
}

abbrev pub hello_message : ServerInfo → List ℕ
hello_message info = varint_bytes 10 0 ++ server_hello_bytes (hello_of info)

pub record InfoFits (info : ServerInfo) : Type 0 where
  pub name_fits : length info.name < 2 ^ 31
  pub timezone_fits : length info.timezone < 2 ^ 31
  pub display_fits : length info.display_name < 2 ^ 31

-- For a revision with all the optional fields, the encoder's writes append the Hello message in the
-- layout that the decoder reads, wherever the buffer has room for it.
pub write_hello-Appends :
    (info : ServerInfo)
    → InfoFits info
    → 54401 ≤ info.revision
    → Appends (hello_message info) (write_hello info)
unfolding write_hello
write_hello-Appends info f h =
    rw
      (
        le→leb 54058 info.revision (omega arith),
        le→leb 54372 info.revision (omega arith),
        le→leb 54401 info.revision h,
      )
      (Appends-regroup (simp append_assoc) (
        then_write-Appends
          (then_write-Appends
            (then_write-Appends
              (then_write-Appends
                (then_write-Appends
                  (then_write-Appends
                    (then_write-Appends (write_varint64-Appends 0)
                      (write_string-Appends info.name f.name_fits))
                    (write_uint64-Appends info.version_major))
                  (write_uint64-Appends info.version_minor))
                (write_uint64-Appends info.revision))
              (write_string-Appends info.timezone f.timezone_fits))
            (write_string-Appends info.display_name f.display_fits))
          (write_uint64-Appends info.version_patch)))

pub hello_info-InfoFits : InfoFits hello_info
hello_info-InfoFits = omega arith

-- On a buffer with `done` written and `free` left, EncodeHelloPacket puts the Hello message of its
-- fixed fields behind `done` and answers `true` where the message fits into what is free, and writes
-- outside the array where it does not.
pub encode_hello_packet-message :
    (size : ℕ) (done free : List ℕ)
    → let message = hello_message hello_info in
      encode_hello_packet (writer size done free) ≡ (
        if leb (length message) (length free)
        then ok (true, writer size (done ++ message) (drop (length message) free))
        else fault)
unfolding encode_hello_packet
encode_hello_packet-message size done free =
    rw (Appends-writer writes size done free)
      (elim (Bool-cases (leb (length (hello_message hello_info)) (length free))) [
        | inl e ↦ rw (e, ◌>>=◌)
        | inr e ↦ rw (e, ◌>>=◌)
      ])
  where
    writes : Appends (hello_message hello_info) (write_hello hello_info)
    writes = write_hello-Appends hello_info hello_info-InfoFits (omega arith)

-- What DispatchBufferForSocket sends is what was written, up to 32000 bytes.
pub dispatch-written :
    (size : ℕ) (done free : List ℕ)
    → length done ≤ dispatch_room
    → dispatch_buffer_for_socket (writer size done free) ≡ ok (done, true)
unfolding dispatch_buffer_for_socket
dispatch-written size done free h = rw (get_buffer-writer dispatch_room size done free h, ◌>>=◌)

-- Beyond 32000 written bytes it overruns the array on its stack.
pub dispatch-overrun :
    (size : ℕ) (done free : List ℕ)
    → dispatch_room < length done
    → dispatch_buffer_for_socket (writer size done free) ≡ fault
unfolding dispatch_buffer_for_socket
dispatch-overrun size done free h = rw (get_buffer-overrun dispatch_room size done free h, ◌>>=◌)
