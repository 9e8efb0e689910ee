-- ===== src/Wire/Reference.antt =====
-- The wire format read off a list of bytes, without a buffer, an index or bit operations: what the readers
-- of src/decoder/ClickHouse_Wire.cpp are compared with. A number whose last byte ends the input is not
-- found, and one of more than ten bytes is not either; both as in ReadVarint64.
pub mod Numbers
pub mod Texts
pub mod Packets
pub mod Decoders
mod Examples
use asabru_engine.Common.{
  ℕ, zero, suc, ◌+◌, ◌*◌, ◌%◌, ◌^◌, ltb, leb, if◌then◌else◌, ◌≡◌, ok, fault, Checked,
}
use asabru_engine.Common.{Bool, true, false, List, [], ◌∷◌, ◌++◌, length, take, drop}
use asabru_engine.Wire.Packets.{Text}
use asabru_engine.Wire.Reader.{ClickReadProtoBuffer}
use asabru_engine.Wire.Reader.At.{reader, not_empty}

-- A value with the bytes behind it, or the input was not long enough.
pub data Parsed (A : Type 0) : Type 0 where
  parsed : A → List ℕ → Parsed A
  overrun : Parsed A

abbrev pub Parser : Type 0 → Type 0
Parser A = List ℕ → Parsed A

abbrev pub pure : {A : Type 0} → A → Parser A
pure a bytes = parsed a bytes

abbrev pub and_then : {A B : Type 0} → (A → Parser B) → Parsed A → Parsed B
and_then f (parsed a rest) = f a rest
and_then f overrun = overrun

infixl 5 ◌>>=◌
abbrev pub ◌>>=◌ : {A B : Type 0} → Parser A → (A → Parser B) → Parser B
◌>>=◌ p f bytes = and_then f (p bytes)

abbrev pub map_parsed : {A B : Type 0} → (A → B) → Parsed A → Parsed B
map_parsed f (parsed a rest) = parsed (f a) rest
map_parsed f overrun = overrun

abbrev pub onto : ℕ → ℕ × Bool → ℕ × Bool
onto b (v, found) = (b % 128 + 128 * v, found)

-- Seven bits a byte, the lowest first, in at most so many bytes.
unfoldable pub groups : ℕ → Parser (ℕ × Bool)
groups zero bytes = parsed (0, false) bytes
groups (suc n) [] = overrun
groups (suc n) (b ∷ []) = parsed (0, false) []
groups (suc n) (b ∷ x ∷ bytes) =
    let later = map_parsed (onto b) (groups n (x ∷ bytes)) in
    if ltb b 128 then parsed (b, true) (x ∷ bytes) else later

abbrev pub word : ℕ × Bool → ℕ × Bool
word (v, found) = (v % 2 ^ 64, found)

unfoldable pub number : Parser (ℕ × Bool)
unfolding groups
number bytes = map_parsed word (groups 10 bytes)

-- A length and so many bytes; a text that is not read stays as it was.
unfoldable pub text_of : Text → ℕ × Bool → Parser (Text × Bool)
text_of old (len, false) bytes = parsed (old, false) bytes
text_of old (len, true) bytes =
    if ltb 0x00ff_ffff len
    then parsed (old, false) bytes
    else if leb len (length bytes)
    then parsed (take len bytes, not_empty (drop len bytes)) (drop len bytes)
    else overrun

unfoldable pub text : Text → Parser (Text × Bool)
unfolding number text_of
text old = number >>= text_of old

-- A method on a buffer of which `pre` was read does what a parser does on what is left: it takes the same
-- bytes and gives the same value, or it reads outside the buffer where the parser lacks input.
abbrev pub Agrees :
    {A : Type 0} → List ℕ → List ℕ → Checked (A × ClickReadProtoBuffer) → Parsed A → Type 0
Agrees pre post m overrun = m ≡ fault
Agrees pre post m (parsed a rest) =
    (used : List ℕ) × (post ≡ used ++ rest) × (m ≡ ok (a, reader (pre ++ used) rest))
