-- ===== src/Greeting.antt =====
-- A server's Hello on its way: CProtocolPacketEncoder and DispatchBufferForSocket
-- (src/decoder/ClickHouse_Wire.cpp) on one side, ReceiveBytes (src/socket/Socket.cpp) and
-- CProtocolPacketDecoder on the other.
mod Examples
use asabru_engine.Common.{
  ℕ, ◌+◌, ◌≤◌, ◌≡◌, refl, ap, ◌∙◌, arith, length, take, length-take, drop, leb, le→leb,
  if◌then◌else◌,
}
use asabru_engine.Common.{
  true, List, [], ◌∷◌, ◌++◌, All, Option, none, some, Checked, ok, fault, ◌>>=◌,
}
use asabru_engine.Net.Receive.{Event, returns, waits, receive_bytes}
use asabru_engine.Net.Receive.Bytes.{deliver, joined, IsPiece, receive_bytes-deliver}
use asabru_engine.Wire.Packets.{ServerHelloPacket, Text}
use asabru_engine.Wire.Reader.{◌>>=◌ as ◌read_then◌}
use asabru_engine.Wire.Reader.At.{reader, new_reader-reader}
use asabru_engine.Wire.Writer.{new_writer, varint_bytes, string_bytes}
use asabru_engine.Wire.Writer.Appends.{writer}
use asabru_engine.Wire.Encoder.{
  hello_info, new_encoder, encode_hello_packet, dispatch_buffer_for_socket, dispatch_room,
}
use asabru_engine.Wire.Encoder.Hello.{
  hello_of, hello_message, encode_hello_packet-message, dispatch-written,
}
use asabru_engine.Wire.Decoder.{new_decoder, get_packet_type, decode_server_packets}
use asabru_engine.Wire.Exchange.{decode-hello_lost_patch}

-- What the server hands to `send`, from an encoder of its own.
unfoldable pub greet : List ℕ → ℕ → Checked Text
greet buffer len = new_encoder buffer len >>= λ w.
    encode_hello_packet w >>= λ encoded. dispatch_buffer_for_socket encoded.1 >>= λ sent. ok sent.0

pub data Listened : Type 0 where
  waiting : Listened
  understood : Option ServerHelloPacket → List Event → Listened

-- One ReceiveBytes, and a decoder of what it returns.
unfoldable pub listen : List Event → Checked Listened
listen events = elim (receive_bytes events) [
  | waits ↦ ok waiting
  | returns text rest ↦ new_decoder text (length text) >>= λ r.
      (get_packet_type read_then decode_server_packets) r >>= λ found. ok (understood found.0 rest)
]

hello_message-short : length (hello_message hello_info) ≤ dispatch_room
unfolding varint_bytes string_bytes
hello_message-short = omega arith

new_encoder-writer :
    (buffer : List ℕ) (len : ℕ)
    → len ≤ length buffer
    → new_encoder buffer len ≡ ok (writer len [] (take len buffer))
unfolding new_encoder new_writer
new_encoder-writer buffer len whole = rw (le→leb len (length buffer) whole)

encode-fits :
    (size : ℕ) (free : List ℕ)
    → length (hello_message hello_info) ≤ length free
    → encode_hello_packet (writer size [] free)
      ≡ ok (
        true,
        writer size (hello_message hello_info) (drop (length (hello_message hello_info)) free),
      )
encode-fits size free room =
    encode_hello_packet-message size [] free
    ∙ rw (le→leb (length (hello_message hello_info)) (length free) room)

greet-message :
    (buffer : List ℕ) (len : ℕ)
    → len ≤ length buffer
    → length (hello_message hello_info) ≤ len
    → greet buffer len ≡ ok (hello_message hello_info)
unfolding greet
greet-message buffer len whole room = rw (
  new_encoder-writer buffer len whole,
  greet,
  encode-fits len (take len buffer) enough,
  dispatch-written len (hello_message hello_info)
      (drop (length (hello_message hello_info)) (take len buffer)) hello_message-short,
)
  where
    enough : length (hello_message hello_info) ≤ length (take len buffer)
    enough = omega (arith, whole, room, length-take len buffer)

listen-hello :
    (events later : List Event)
    → receive_bytes events ≡ returns (hello_message hello_info) later
    → listen events
      ≡ ok (understood (some (record (hello_of hello_info) { version_patch = 0 })) later)
unfolding listen new_decoder
listen-hello events later e =
    rw (e, listen, new_reader-reader (hello_message hello_info), ◌>>=◌)
      (rw (decode-hello_lost_patch, ◌>>=◌))

-- Where the encoder's buffer has room for the message, the server hands the whole Hello message to `send`.
-- If that arrives in pieces of at most 1024 bytes, each followed by the next before FIONREAD is asked,
-- the client makes out every field as it was sent but the version patch, which is 0 instead of 1, and
-- leaves what follows unread.
pub greet-listen :
    (buffer : List ℕ) (len : ℕ)
    → len ≤ length buffer
    → length (hello_message hello_info) ≤ len
    → (piece : List ℕ) (pieces : List (List ℕ)) (later : List Event) → All IsPiece (piece ∷ pieces)
    → joined (piece ∷ pieces) ≡ hello_message hello_info
    → (greet buffer len ≡ ok (hello_message hello_info))
      × (listen (deliver (piece ∷ pieces) ++ later)
          ≡ ok (understood (some (record (hello_of hello_info) { version_patch = 0 })) later))
greet-listen buffer len whole room piece pieces later h cut = (
  greet-message buffer len whole room,
  listen-hello (deliver (piece ∷ pieces) ++ later) later
      (receive_bytes-deliver piece pieces later h ∙ ap (λ text. returns text later) cut),
)
