-- ===== src/Wire/Decoder/Fields.antt =====
-- One field of a packet read from the front of what is left, and what a packet's bytes are.
use asabru_engine.Common.{ℕ, Bool, ◌≤◌, ◌<◌, ◌≡◌, refl, true, false, arith}
use asabru_engine.Common.{List, [], ◌∷◌, ◌++◌, append-nil, append_assoc, ◌∙◌, length, ok}
use asabru_engine.Wire.Packets.{Text, IsU64, ClientHelloPacket, ServerHelloPacket}
use asabru_engine.Wire.Writer.{string_bytes, varint_bytes}
use asabru_engine.Wire.Reader.{read_varint64, read_string, Reads, ◌>>=◌}
use asabru_engine.Wire.Reader.At.{reader, not_empty}
use asabru_engine.Wire.Varint.{length-varint_bytes, varint_bytes-last, varint_loop-cut}
use asabru_engine.Wire.Varint.RoundTrip.{read_varint64-varint_bytes}
use asabru_engine.Wire.Strings.{max_string, read_string-string_bytes, read_string-no_length}

pub not_empty-append_left : (xs ys : List ℕ) → not_empty xs ≡ true → not_empty (xs ++ ys) ≡ true
not_empty-append_left [] ys h = cc
not_empty-append_left (x ∷ xs) ys h = refl

pub not_empty-append_right : (xs ys : List ℕ) → not_empty ys ≡ true → not_empty (xs ++ ys) ≡ true
not_empty-append_right [] ys h = h
not_empty-append_right (x ∷ xs) ys h = refl

not_empty_of_length : (xs : List ℕ) → 1 ≤ length xs → not_empty xs ≡ true
not_empty_of_length [] h = elim h [ ]
not_empty_of_length (x ∷ xs) h = refl

pub more_varint : (v : ℕ) (xs : List ℕ) → not_empty (varint_bytes 10 v ++ xs) ≡ true
more_varint v xs =
    not_empty-append_left (varint_bytes 10 v) xs (not_empty_of_length _ (length-varint_bytes 9 v).0)

pub some_string : (s : Text) → not_empty (string_bytes s) ≡ true
unfolding string_bytes
some_string s =
    not_empty-append_left (varint_bytes 10 (length s)) s
      (not_empty_of_length _ (length-varint_bytes 9 (length s)).0)

pub more_string : (s : Text) (xs : List ℕ) → not_empty (string_bytes s ++ xs) ≡ true
more_string s xs = not_empty-append_left (string_bytes s) xs (some_string s)

-- A number of one byte at the very end of the buffer is not read: the value stays 0.
pub read_varint64-last_byte :
    (v : ℕ) (pre : List ℕ)
    → v < 128
    → read_varint64 (reader pre (varint_bytes 10 v))
      ≡ ok ((0, false), reader (pre ++ varint_bytes 10 v) [])
unfolding read_varint64
read_varint64-last_byte v pre h = rw (varint_bytes-last 9 v h) (varint_loop-cut 9 0 0 pre v)

-- A text read into an empty string arrives whole wherever it stands, even if its length is the
-- buffer's last byte.
pub read_string-into_empty :
    (s : Text) (pre rest : List ℕ)
    → length s ≤ max_string
    → read_string [] (reader pre (string_bytes s ++ rest))
      ≡ ok ((s, not_empty rest), reader (pre ++ string_bytes s) rest)
unfolding string_bytes
read_string-into_empty [] pre [] h =
    rw (append-nil (string_bytes []), append-nil (varint_bytes 10 0))
      (read_string-no_length [] _ _ 0 (read_varint64-last_byte 0 pre (omega arith)))
read_string-into_empty [] pre (x ∷ rest) h = read_string-string_bytes [] [] pre (x ∷ rest) h refl
read_string-into_empty (c ∷ s) pre rest h = read_string-string_bytes [] (c ∷ s) pre rest h refl

-- A packet behind its type, field by field in the order of the protocol.
abbrev pub client_hello_bytes : ClientHelloPacket → List ℕ
client_hello_bytes h =
    string_bytes h.client_name
    ++ (varint_bytes 10 h.version_major
        ++ (varint_bytes 10 h.version_minor
            ++ (varint_bytes 10 h.protocol_version
                ++ (string_bytes h.database
                    ++ (string_bytes h.username ++ string_bytes h.password)))))

abbrev pub server_hello_bytes : ServerHelloPacket → List ℕ
server_hello_bytes h =
    string_bytes h.name
    ++ (varint_bytes 10 h.version_major
        ++ (varint_bytes 10 h.version_minor
            ++ (varint_bytes 10 h.revision
                ++ (string_bytes h.tz
                    ++ (string_bytes h.display_name ++ varint_bytes 10 h.version_patch)))))

-- Numbers of a `uint64_t` and texts within the reader's limit.
pub record ClientHelloFits (h : ClientHelloPacket) : Type 0 where
  pub name_fits : length h.client_name ≤ max_string
  pub major_fits : IsU64 h.version_major
  pub minor_fits : IsU64 h.version_minor
  pub protocol_fits : IsU64 h.protocol_version
  pub database_fits : length h.database ≤ max_string
  pub username_fits : length h.username ≤ max_string
  pub password_fits : length h.password ≤ max_string

pub record ServerHelloFits (h : ServerHelloPacket) : Type 0 where
  pub name_fits : length h.name ≤ max_string
  pub major_fits : IsU64 h.version_major
  pub minor_fits : IsU64 h.version_minor
  pub revision_fits : IsU64 h.revision
  pub tz_fits : length h.tz ≤ max_string
  pub display_fits : length h.display_name ≤ max_string
  pub patch_fits : IsU64 h.version_patch

-- One read after another, on the bytes of both.
module _ {B : Type 0} (pre w rest : List ℕ) (b : B) where
  reads_then :
      {A : Type 0} (m : Reads A) (f : A → Reads B) (u : List ℕ) (a : A)
      → m (reader pre (u ++ (w ++ rest))) ≡ ok (a, reader (pre ++ u) (w ++ rest))
      → f a (reader (pre ++ u) (w ++ rest)) ≡ ok (b, reader ((pre ++ u) ++ w) rest)
      → (m >>= f) (reader pre ((u ++ w) ++ rest)) ≡ ok (b, reader (pre ++ (u ++ w)) rest)
  reads_then m f u a first later =
      rw (append_assoc u w rest, first, ◌>>=◌) (later ∙ rw (append_assoc pre u w))

  pub string_then :
      (f : Text × Bool → Reads B) (s : Text)
      → length s ≤ max_string
      → f (s, not_empty (w ++ rest)) (reader (pre ++ string_bytes s) (w ++ rest))
        ≡ ok (b, reader ((pre ++ string_bytes s) ++ w) rest)
      → (read_string [] >>= f) (reader pre ((string_bytes s ++ w) ++ rest))
        ≡ ok (b, reader (pre ++ (string_bytes s ++ w)) rest)
  string_then f s fits later =
      reads_then (read_string []) f (string_bytes s) (s, not_empty (w ++ rest))
        (read_string-into_empty s pre (w ++ rest) fits) later

  pub number_then :
      (f : ℕ × Bool → Reads B) (v : ℕ)
      → IsU64 v
      → not_empty w ≡ true
      → f (v, true) (reader (pre ++ varint_bytes 10 v) (w ++ rest))
        ≡ ok (b, reader ((pre ++ varint_bytes 10 v) ++ w) rest)
      → (read_varint64 >>= f) (reader pre ((varint_bytes 10 v ++ w) ++ rest))
        ≡ ok (b, reader (pre ++ (varint_bytes 10 v ++ w)) rest)
  number_then f v fits more later =
      reads_then read_varint64 f (varint_bytes 10 v) (v, true)
        (read_varint64-varint_bytes v pre (w ++ rest) fits (not_empty-append_left w rest more))
        later
