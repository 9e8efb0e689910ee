-- ===== src/Wire/Writer.antt =====
-- ClickWriteProtoBuffer: a private array of fixed size and the position that is written next. No
-- method checks that position against the size: a write outside the array is `fault`.
pub mod Appends
use asabru_engine.Common.{ℕ, zero, suc, ◌+◌, ◌/◌, ◌%◌, ◌^◌, bit_and, bit_or, ltb, leb, ◌==◌}
use asabru_engine.Common.{List, [], ◌∷◌, ◌++◌, length, take, drop, if◌then◌else◌}
use asabru_engine.Common.{Checked, ok, fault, ◌>>=◌, ◌&&◌}
use asabru_engine.Wire.Packets.{Text, max_varint_bytes}

pub record ClickWriteProtoBuffer : Type 0 where
  pub m_buffer : List ℕ
  pub m_index : ℕ
  pub m_len : ℕ

-- A method that writes.
abbrev pub Writes : Type 0
Writes = ClickWriteProtoBuffer → Checked ClickWriteProtoBuffer

-- One write after another.
infixl 5 ◌then_write◌
abbrev pub ◌then_write◌ : Writes → Writes → Writes
◌then_write◌ f g w = f w >>= g

abbrev pub nothing_written : Writes
nothing_written w = ok w

unfoldable pub new_writer : List ℕ → ℕ → Checked ClickWriteProtoBuffer
new_writer buffer len =
    if leb len (length buffer)
    then ok (record { m_buffer = take len buffer; m_index = 0; m_len = len })
    else fault

-- The bytes written so far, for an output array of `room` bytes.
unfoldable pub get_buffer : ℕ → ClickWriteProtoBuffer → Checked (Text × ℕ)
get_buffer room w =
    if leb w.m_index room && leb w.m_index (length w.m_buffer)
    then ok (take w.m_index w.m_buffer, w.m_index)
    else fault

-- `memcpy` of the first `len` bytes of `buff`; a negative `int` counts as a huge `size_t`.
unfoldable pub write_buffer : Text → ℕ → Writes
write_buffer buff len w =
    if ltb len (2 ^ 31) && leb len (length buff) && leb (w.m_index + len) (length w.m_buffer)
    then ok (record w {
      m_buffer = take w.m_index w.m_buffer ++ (take len buff ++ drop (w.m_index + len) w.m_buffer);
      m_index = w.m_index + len;
    })
    else fault

-- The `size_t` length becomes an `int`: its low 32 bits.
unfoldable pub write_all : Text → ℕ → Writes
unfolding write_buffer
write_all buf len = write_buffer buf (len % 2 ^ 32)

-- WriteFixed<T>: `sizeof(T)` bytes as they lie in memory.
unfoldable pub write_fixed : Text → Writes
unfolding write_all
write_fixed value = write_all value (length value)

unfoldable pub write_bytes : Text → ℕ → Writes
unfolding write_all
write_bytes buf len = write_all buf len

-- The loop of WriteVarint64, by the rounds that are left: the array that it fills.
unfoldable pub varint_bytes : ℕ → ℕ → List ℕ
varint_bytes zero value = []
varint_bytes (suc rounds) value =
    let low = bit_and value 0x7f in
    let byte = if ltb 0x7f value then bit_or low 0x80 else low in
    let rest = varint_bytes rounds (value / 2 ^ 7) in
    if value / 2 ^ 7 == 0 then byte ∷ [] else byte ∷ rest

unfoldable pub write_varint64 : ℕ → Writes
write_varint64 value =
    let bytes = varint_bytes max_varint_bytes value in write_all bytes (length bytes)

unfoldable pub write_string : Text → Writes
write_string value = write_varint64 (length value) then_write write_all value (length value)

unfoldable pub write_uint64 : ℕ → Writes
write_uint64 value = write_varint64 value

-- A text as it stands in a packet: its length, then its bytes.
unfoldable pub string_bytes : Text → List ℕ
string_bytes s = varint_bytes max_varint_bytes (length s) ++ s
