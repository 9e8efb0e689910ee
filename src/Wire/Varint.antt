-- ===== src/Wire/Varint.antt =====
-- The variable-length integers of the wire format: seven bits a byte, the lowest group first, the
-- top bit set on every byte but the last. What WriteVarint64 writes, and one round of ReadVarint64.
pub mod RoundTrip
pub mod Total
use asabru_engine.Common.{ℕ, zero, suc, ◌+◌, ◌*◌, ◌/◌, ◌%◌, ◌^◌, ◌≤◌, ◌<◌, bit_and, bit_or}
use asabru_engine.Common.{◌≡◌, refl, ap, ◌∙◌, true, false, List, [], ◌∷◌, ◌++◌, length, All, arith}
use asabru_engine.Common.{ok, fault, ltb, ◌==◌, if◌then◌else◌, lt→ltb, le→ltb_false}
use asabru_engine.Common.Bits.{bit_and_low, bit_and_top, bit_or_top, bit_or_high}
use native.Mathlib.Decide.{dec_lt}
use native.Mathlib.Nat.{pow-suc, mod-eq_of_lt}
use native.Mathlib.Numerals.{towards_suc}
use asabru_engine.Wire.Packets.{IsByte, IsU64}
use asabru_engine.Wire.Writer.{varint_bytes}
use asabru_engine.Wire.Reader.{read_byte, add_group, varint_loop, ◌>>=◌}
use asabru_engine.Wire.Reader.At.{reader, not_empty, read_byte-reader, read_byte-end}

pub varint_bytes-last : (k v : ℕ) → v < 128 → varint_bytes (suc k) v ≡ v ∷ []
unfolding varint_bytes
varint_bytes-last k v h = ground (arith, bit_and_low v)

pub varint_bytes-more :
    (k v : ℕ) → 128 ≤ v → varint_bytes (suc k) v ≡ (v % 128 + 128) ∷ varint_bytes k (v / 128)
unfolding varint_bytes
varint_bytes-more k v h = ground (arith, bit_and_low v, bit_or_top (v % 128))

pub varint_bytes-IsByte : (k v : ℕ) → v < 128 ^ suc k → All IsByte (varint_bytes (suc k) v)
varint_bytes-IsByte zero v h = rw (varint_bytes-last zero v (omega arith)) (omega arith)
varint_bytes-IsByte (suc k) v h = elim (dec_lt v 128) [
  | yes p ↦ rw (varint_bytes-last (suc k) v p) (omega arith)
  | no p ↦
      rw (varint_bytes-more (suc k) v (omega arith))
        (omega arith, varint_bytes-IsByte k (v / 128) (omega (arith, pow-suc 128 (suc k))))
]

-- One byte at least, and at most one for each round.
pub length-varint_bytes :
    (k v : ℕ) → (1 ≤ length (varint_bytes (suc k) v)) × (length (varint_bytes (suc k) v) ≤ suc k)
length-varint_bytes zero v = elim (dec_lt v 128) [
  | yes p ↦ rw (varint_bytes-last zero v p) (omega arith, omega arith)
  | no p ↦ rw (varint_bytes-more zero v (omega arith)) (unfold varint_bytes in omega arith)
]
length-varint_bytes (suc k) v = elim (dec_lt v 128) [
  | yes p ↦ rw (varint_bytes-last (suc k) v p) (omega arith, omega arith)
  | no p ↦
      rw (varint_bytes-more (suc k) v (omega arith))
        (omega (arith, length-varint_bytes k (v / 128)))
]

-- A round on a byte that is not the last one of the buffer, and on the last one.
pub varint_loop-stop :
    (k i acc : ℕ) (pre : List ℕ) (b : ℕ) (post : List ℕ)
    → b < 128
    → not_empty post ≡ true
    → varint_loop (suc k) i acc (reader pre (b ∷ post))
      ≡ ok ((add_group acc b i, true), reader (pre ++ (b ∷ [])) post)
unfolding varint_loop
varint_loop-stop k i acc pre b post h more =
    rw (read_byte-reader pre b post, ◌>>=◌) (ground (arith, bit_and_top b))

pub varint_loop-go_on :
    (k i acc : ℕ) (pre : List ℕ) (b : ℕ) (post : List ℕ)
    → 128 ≤ b
    → b < 256
    → not_empty post ≡ true
    → varint_loop (suc k) i acc (reader pre (b ∷ post))
      ≡ varint_loop k (i + 1) (add_group acc b i) (reader (pre ++ (b ∷ [])) post)
unfolding varint_loop
varint_loop-go_on k i acc pre b post h byte more =
    rw (read_byte-reader pre b post, ◌>>=◌) (rw (more, continued))
  where
    continued : (bit_and b 0x80 == 0) ≡ false
    continued = ground (arith, bit_and_top b)

pub varint_loop-cut :
    (k i acc : ℕ) (pre : List ℕ) (b : ℕ)
    → varint_loop (suc k) i acc (reader pre (b ∷ []))
      ≡ ok ((acc, false), reader (pre ++ (b ∷ [])) [])
unfolding varint_loop
varint_loop-cut k i acc pre b = rw (read_byte-reader pre b [], ◌>>=◌)

pub varint_loop-end :
    (k i acc : ℕ) (pre : List ℕ) → varint_loop (suc k) i acc (reader pre []) ≡ fault
unfolding varint_loop
varint_loop-end k i acc pre = rw (read_byte-end pre, ◌>>=◌)

shift_seven : (s : ℕ) → 2 ^ (s + 7) ≡ 128 * 2 ^ s
shift_seven s = simp towards_suc (omega arith)

pub seven_more : (i : ℕ) → 2 ^ (7 * (i + 1)) ≡ 128 * 2 ^ (7 * i)
seven_more i = ap (λ (n : ℕ). 2 ^ n) (distributed i) ∙ shift_seven (7 * i)
  where
    distributed : (n : ℕ) → 7 * (n + 1) ≡ 7 * n + 7
    distributed n = omega arith

-- Where the group fits a `uint64_t`, it is added on top.
pub add_group_fits :
    (acc b i : ℕ)
    → acc < 2 ^ (7 * i)
    → b % 128 * 2 ^ (7 * i) < 2 ^ 64
    → add_group acc b i ≡ acc + b % 128 * 2 ^ (7 * i)
add_group_fits acc b i low fits =
    ground (arith, bit_and_low b, bit_or_high (7 * i) acc (b % 128), mod-eq_of_lt fits)
