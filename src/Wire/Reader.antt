-- ===== src/Wire/Reader.antt =====
-- ClickReadProtoBuffer: a private copy of the input, the position that is read next, and the
-- length that the constructor was given. An access outside the copy is `fault`.
pub mod At
use asabru_engine.Common.{ℕ, zero, suc, ◌+◌, ◌*◌, ◌%◌, ◌^◌, bit_and, bit_or, ltb, leb, ◌==◌}
use asabru_engine.Common.{Bool, true, false, none, some, List, length, get_elem?, take, drop}
use asabru_engine.Common.{if◌then◌else◌, Checked, ok, fault}
use asabru_engine.Wire.Packets.{Text, max_varint_bytes}

pub record ClickReadProtoBuffer : Type 0 where
  pub m_buffer : List ℕ
  pub m_index : ℕ
  pub m_len : ℕ

-- A method that reads: its result, out-parameters included, and the buffer after it.
abbrev pub Reads : Type 0 → Type 0
Reads A = ClickReadProtoBuffer → Checked (A × ClickReadProtoBuffer)

abbrev pub pure : {A : Type 0} → A → Reads A
pure a r = ok (a, r)

infixl 5 ◌>>=◌ ◌>>◌
abbrev pub ◌>>=◌ : {A B : Type 0} → Reads A → (A → Reads B) → Reads B
◌>>=◌ m f r = elim (m r) [ fault ↦ fault | ok (a, r') ↦ f a r' ]

abbrev pub ◌>>◌ : {A B : Type 0} → Reads A → Reads B → Reads B
m >> k = m >>= λ _. k

-- The constructor copies `len` bytes from the caller's memory.
unfoldable pub new_reader : List ℕ → ℕ → Checked ClickReadProtoBuffer
new_reader buffer len =
    if leb len (length buffer)
    then ok (record { m_buffer = take len buffer; m_index = 0; m_len = len })
    else fault

-- `*byte`, and whether anything is left behind it.
unfoldable pub read_byte : Reads (ℕ × Bool)
read_byte r = elim (get_elem? r.m_buffer r.m_index) [
  | none ↦ fault
  | some byte ↦ ok ((byte, ltb (r.m_index + 1) r.m_len), record r { m_index = r.m_index + 1 })
]

-- `memcpy` of `size` bytes out of the copy.
unfoldable pub read_buffer : ℕ → Reads (Text × Bool)
read_buffer size r =
    if leb (r.m_index + size) (length r.m_buffer)
    then ok (
      (take size (drop r.m_index r.m_buffer), ltb (r.m_index + size) r.m_len),
      record r { m_index = r.m_index + size },
    )
    else fault

-- `value |= uint64_t(byte & 0x7F) << (7 * i)`; a shift of a `uint64_t` drops the bits above it.
abbrev pub add_group : ℕ → ℕ → ℕ → ℕ
add_group value byte i = bit_or value (bit_and byte 0x7f * 2 ^ (7 * i) % 2 ^ 64)

-- The `for` loop of ReadVarint64, by the rounds that are left; round `i` holds `value`.
unfoldable pub varint_loop : ℕ → ℕ → ℕ → Reads (ℕ × Bool)
varint_loop zero i value = pure (value, false)
varint_loop (suc rounds) i value = do
  (byte, more) ← read_byte
  let value' = add_group value byte i
  elim more [
    | false ↦ pure (value, false)
    | true ↦ elim (bit_and byte 0x80 == 0) [
      | true ↦ pure (value', true)
      | false ↦ varint_loop rounds (i + 1) value'
    ]
  ]

-- The value that `*value` holds afterwards, and the result.
unfoldable pub read_varint64 : Reads (ℕ × Bool)
read_varint64 = varint_loop max_varint_bytes 0 0

unfoldable pub read_all : ℕ → Reads (Text × Bool)
unfolding read_buffer
read_all len = read_buffer len

-- ReadFixed<T>: `sizeof(T)` bytes as they lie in memory.
unfoldable pub read_fixed : ℕ → Reads (Text × Bool)
unfolding read_all
read_fixed size = read_all size

-- `*value` was `old` before the call.
unfoldable pub read_string : Text → Reads (Text × Bool)
read_string old = do
  (len, found) ← read_varint64
  if found
      then (if ltb 0x00ff_ffff len then pure (old, false) else read_all len)
      else pure (old, false)
