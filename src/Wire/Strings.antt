-- ===== src/Wire/Strings.antt =====
-- ReadString: on what WriteString wrote, and on lengths that the buffer does not hold.
use asabru_engine.Common.{ℕ, ◌≤◌, ◌<◌, ◌≡◌, ◌∙◌, true, false, arith}
use asabru_engine.Common.{List, ◌++◌, append_assoc, length, ok, fault, le→ltb_false}
use asabru_engine.Common.{lt→ltb}
use asabru_engine.Wire.Packets.{Text}
use asabru_engine.Wire.Writer.{string_bytes, varint_bytes}
use asabru_engine.Wire.Reader.{
  ClickReadProtoBuffer, read_varint64, read_string, read_all, read_buffer, ◌>>=◌,
}
use asabru_engine.Wire.Reader.At.{reader, not_empty, read_buffer-reader, read_buffer-fault}
use asabru_engine.Wire.Varint.RoundTrip.{read_varint64-varint_bytes}

abbrev pub max_string : ℕ
max_string = 0x00ff_ffff

-- ReadString by the outcome of the length's ReadVarint64, on any input.
module _ (old : Text) (r s : ClickReadProtoBuffer) (len : ℕ) where
  pub read_string-no_length :
      read_varint64 r ≡ ok ((len, false), s) → read_string old r ≡ ok ((old, false), s)
  unfolding read_string
  read_string-no_length e = rw (e, ◌>>=◌)

  pub read_string-too_long :
      read_varint64 r ≡ ok ((len, true), s)
      → max_string < len
      → read_string old r ≡ ok ((old, false), s)
  unfolding read_string
  read_string-too_long e h = rw (e, ◌>>=◌) (rw (lt→ltb max_string len h))

  pub read_string-length :
      read_varint64 r ≡ ok ((len, true), s)
      → len ≤ max_string
      → read_string old r ≡ read_buffer len s
  unfolding read_string read_all
  read_string-length e h = rw (e, ◌>>=◌) (rw (le→ltb_false max_string len h))

-- ReadString does not compare the declared length with what the buffer holds: whenever the length is
-- within its limit and exceeds what is left, the copy reads outside the buffer.
pub read_string-overrun :
    (old : Text) (r : ClickReadProtoBuffer) (len : ℕ) (pre rest : List ℕ)
    → read_varint64 r ≡ ok ((len, true), reader pre rest)
    → len ≤ max_string
    → length rest < len
    → read_string old r ≡ fault
read_string-overrun old r len pre rest e h over =
    read_string-length old r (reader pre rest) len e h ∙ read_buffer-fault pre rest len over

-- ReadString gives back each text that WriteString wrote, if its length is within the reader's limit
-- and the buffer goes on behind the length; the result says whether it goes on behind the text.
pub read_string-string_bytes :
    (old s : Text) (pre rest : List ℕ)
    → length s ≤ max_string
    → not_empty (s ++ rest) ≡ true
    → read_string old (reader pre (string_bytes s ++ rest))
      ≡ ok ((s, not_empty rest), reader (pre ++ string_bytes s) rest)
unfolding string_bytes
read_string-string_bytes old s pre rest h more =
    read_string-length old (reader pre (string_bytes s ++ rest))
      (reader (pre ++ len_bytes) (s ++ rest)) (length s) found h
    ∙ read_buffer-reader (pre ++ len_bytes) s rest
    ∙ rw (append_assoc pre len_bytes s)
  where
    len_bytes : List ℕ
    len_bytes = varint_bytes 10 (length s)

    found :
        read_varint64 (reader pre (string_bytes s ++ rest))
        ≡ ok ((length s, true), reader (pre ++ len_bytes) (s ++ rest))
    found =
        rw (append_assoc len_bytes s rest)
          (read_varint64-varint_bytes (length s) pre (s ++ rest) (omega arith) more)
