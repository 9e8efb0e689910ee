-- ===== src/Wire/Reference/Decoders.antt =====
-- The decoders of CProtocolPacketDecoder against the reference, on any bytes.
use asabru_engine.Common.{ℕ, if◌then◌else◌, refl, All, append-nil}
use asabru_engine.Common.{Bool, true, false, none, List, []}
use asabru_engine.Wire.Packets.{IsByte, Text}
use asabru_engine.Wire.Reader.{Reads, read_varint64, read_string, pure, ◌>>=◌ as read_then}
use asabru_engine.Wire.Reader.At.{reader}
use asabru_engine.Wire.Decoder.{
  decode_client_hello_packet, decode_server_hello_packet, decode_query_body, decode_query_packet,
}
use asabru_engine.Wire.Reference.{Parser, parsed, number, text, Agrees, ◌>>=◌ as parse_then}
use asabru_engine.Wire.Reference.Numbers.{read_varint64-number}
use asabru_engine.Wire.Reference.Texts.{bound, read_string-text}
use asabru_engine.Wire.Reference.Packets.{
  client_hello, server_hello, query_body, named_query, typed_query, query_packet,
}

-- A method does what a parser does, wherever it stands in the buffer.
abbrev Follows : {A : Type 0} → Reads A → Parser A → Type 0
Follows m p = (pre post : List ℕ) → All IsByte post → Agrees pre post (m (reader pre post)) (p post)

-- A number, or a text, in front of what follows.
number_first :
    {B : Type 0} (f : ℕ × Bool → Reads B) (g : ℕ × Bool → Parser B)
    → ((a : ℕ × Bool) → Follows (f a) (g a))
    → Follows (read_then read_varint64 f) (parse_then number g)
number_first f g later pre post bytes =
    bound read_varint64 f g pre post (number post) bytes (read_varint64-number pre post bytes) later

text_first :
    {B : Type 0} (f : Text × Bool → Reads B) (g : Text × Bool → Parser B)
    → ((a : Text × Bool) → Follows (f a) (g a))
    → Follows (read_then (read_string []) f) (parse_then (text []) g)
text_first f g later pre post bytes =
    bound (read_string []) f g pre post (text [] post) bytes (read_string-text [] pre post bytes)
      later

done_here : {A : Type 0} (a : A) → Follows (pure a) (λ bytes. parsed a bytes)
done_here a pre post bytes = ([], refl, rw (append-nil pre))

decode_client_hello_packet-Follows : Follows decode_client_hello_packet client_hello
unfolding decode_client_hello_packet client_hello
decode_client_hello_packet-Follows = text_first _ _ λ name. number_first _ _ λ major.
    number_first _ _ λ minor. number_first _ _ λ protocol.
      text_first _ _ λ database. text_first _ _ λ username. text_first _ _ λ password. done_here _

decode_server_hello_packet-Follows : Follows decode_server_hello_packet server_hello
unfolding decode_server_hello_packet server_hello
decode_server_hello_packet-Follows = text_first _ _ λ name. number_first _ _ λ major.
    number_first _ _ λ minor. number_first _ _ λ revision.
      text_first _ _ λ tz. text_first _ _ λ display_name. number_first _ _ λ patch. done_here _

decode_query_body-Follows :
    (packet_type : ℕ) (query_id : Text)
    → Follows (decode_query_body packet_type query_id) (query_body packet_type query_id)
unfolding decode_query_body query_body
decode_query_body-Follows packet_type query_id =
    number_first _ _ λ stage. number_first _ _ λ compression. text_first _ _ λ query. done_here _

named_query-Follows :
    (packet_type : ℕ) (a : Text × Bool)
    → Follows
        (if a.1 then decode_query_body packet_type a.0 else pure (none, false))
        (named_query packet_type a)
unfolding named_query
named_query-Follows packet_type (query_id, true) = decode_query_body-Follows packet_type query_id
named_query-Follows packet_type (query_id, false) = done_here (none, false)

typed_query-Follows :
    (a : ℕ × Bool)
    → Follows
        (if a.1
          then read_then
              (read_string [])
              (λ b. if b.1 then decode_query_body a.0 b.0 else pure (none, false))
          else pure (none, false))
        (typed_query a)
unfolding typed_query
typed_query-Follows (packet_type, true) =
    text_first _ (named_query packet_type) (named_query-Follows packet_type)
typed_query-Follows (packet_type, false) = done_here (none, false)

-- On any bytes, also those that no encoder wrote, the decoders of both Hello packets and of a query give
-- the packet that the reference reads field by field, and take the same bytes; they read outside the
-- buffer exactly where the reference lacks input.
pub decoders-Follows :
    (pre post : List ℕ)
    → All IsByte post
    → Agrees pre post (decode_client_hello_packet (reader pre post)) (client_hello post)
      × Agrees pre post (decode_server_hello_packet (reader pre post)) (server_hello post)
      × Agrees pre post (decode_query_packet (reader pre post)) (query_packet post)
unfolding decode_query_packet query_packet
decoders-Follows pre post bytes = (
  decode_client_hello_packet-Follows pre post bytes,
  decode_server_hello_packet-Follows pre post bytes,
  number_first _ typed_query typed_query-Follows pre post bytes,
)
