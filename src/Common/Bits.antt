-- ===== src/Common/Bits.antt =====
-- `|` of a number and bits above it, at every width, and masks of one byte as arithmetic.
use Prim.Native.Nat.{ℕ, zero, suc, ◌+◌, ◌*◌, ◌/◌, ◌%◌, ◌^◌, ◌≤◌, ◌<◌, max, min}
use Prim.Native.Nat.{bit_and, bit_or, digits, bit_or-bitwise, bit_and-bitwise}
use mathlib.Core.Path.{◌≡◌, refl, ap}
use mathlib.Core.Bool.{Bool, true, ◌&&◌}
use native.Mathlib.Omega.{arith}
use native.Mathlib.Nat.{pow-suc}
use asabru_engine.Common.Tests.{◌==◌, ==_iff}

-- The digit recursion that the native operations stand for; its fuel does not matter.
module _ (top : ℕ → ℕ) (digit : ℕ → ℕ → ℕ) where
  digits_fuel : (m n a b : ℕ) → a ≤ m → a ≤ n → digits top digit m a b ≡ digits top digit n a b
  digits_fuel zero zero a b hm hn = refl
  digits_fuel zero (suc n) zero b hm hn = refl
  digits_fuel zero (suc n) (suc a) b hm hn = absurd (omega arith)
  digits_fuel (suc m) zero zero b hm hn = refl
  digits_fuel (suc m) zero (suc a) b hm hn = absurd (omega arith)
  digits_fuel (suc m) (suc n) zero b hm hn = refl
  digits_fuel (suc m) (suc n) (suc a) b hm hn =
      omega (arith, digits_fuel m n (suc a / 2) (b / 2) (omega arith) (omega arith))

pub zero-bit_or : (b : ℕ) → bit_or 0 b ≡ b
zero-bit_or b = bit_or-bitwise 0 b

-- The lowest binary digit of `a | b` and of `a & b`, and the digits above it.
bit_or_halves : (a b : ℕ) → bit_or a b ≡ 2 * bit_or (a / 2) (b / 2) + max (a % 2) (b % 2)
bit_or_halves zero b = omega (arith, zero-bit_or b, zero-bit_or (b / 2))
bit_or_halves (suc a) b = omega (
  arith,
  bit_or-bitwise (suc a) b,
  bit_or-bitwise (suc a / 2) (b / 2),
  digits_fuel (λ x. x) max a (suc a / 2) (suc a / 2) (b / 2) (omega arith) (omega arith),
)

bit_and_halves : (a b : ℕ) → bit_and a b ≡ 2 * bit_and (a / 2) (b / 2) + min (a % 2) (b % 2)
bit_and_halves zero b = omega (arith, bit_and-bitwise 0 b, bit_and-bitwise 0 (b / 2))
bit_and_halves (suc a) b = omega (
  arith,
  bit_and-bitwise (suc a) b,
  bit_and-bitwise (suc a / 2) (b / 2),
  digits_fuel (λ x. 0) min a (suc a / 2) (suc a / 2) (b / 2) (omega arith) (omega arith),
)

no_bits : (m a : ℕ) → a ≤ m → bit_and a 0 ≡ 0
no_bits zero zero h = refl
no_bits zero (suc a) h = absurd (omega arith)
no_bits (suc m) a h = omega (arith, bit_and_halves a 0, no_bits m (a / 2) (omega arith))

mask_one : (a : ℕ) → bit_and a 1 ≡ a % 2
mask_one a = omega (arith, bit_and_halves a 1, no_bits (a / 2) (a / 2) (omega arith))

mask_two : (a : ℕ) → bit_and a 3 ≡ a % 4
mask_two a = omega (arith, bit_and_halves a 3, mask_one (a / 2))

mask_three : (a : ℕ) → bit_and a 7 ≡ a % 8
mask_three a = omega (arith, bit_and_halves a 7, mask_two (a / 2))

mask_four : (a : ℕ) → bit_and a 15 ≡ a % 16
mask_four a = omega (arith, bit_and_halves a 15, mask_three (a / 2))

mask_five : (a : ℕ) → bit_and a 31 ≡ a % 32
mask_five a = omega (arith, bit_and_halves a 31, mask_four (a / 2))

mask_six : (a : ℕ) → bit_and a 63 ≡ a % 64
mask_six a = omega (arith, bit_and_halves a 63, mask_five (a / 2))

-- `& 0x7F` keeps the low seven bits, of a number of any width.
pub bit_and_low : (a : ℕ) → bit_and a 0x7f ≡ a % 128
bit_and_low a = omega (arith, bit_and_halves a 127, mask_six (a / 2))

-- `low | (high << s)` is a sum when `low` has at most `s` bits.
pub bit_or_high : (s low high : ℕ) → low < 2 ^ s → bit_or low (high * 2 ^ s) ≡ low + high * 2 ^ s
bit_or_high zero low high h = rw no_low (omega (arith, zero-bit_or (high * 2 ^ 0)))
  where
    no_low : low ≡ 0
    no_low = omega arith
bit_or_high (suc s) low high h = omega (
  arith,
  bit_or_halves low (high * 2 ^ suc s),
  ap (λ (t : ℕ). high * t) (pow-suc 2 s),
  pow-suc 2 s,
  ap (bit_or (low / 2)) halved,
  bit_or_high s (low / 2) high (omega (arith, pow-suc 2 s)),
)
  where
    halved : high * 2 ^ suc s / 2 ≡ high * 2 ^ s
    halved = omega (arith, ap (λ (t : ℕ). high * t) (pow-suc 2 s))

-- A table over a small range, checked by evaluation.
holds_below : ℕ → (ℕ → Bool) → Bool
holds_below zero p = true
holds_below (suc n) p = p n && holds_below n p

holds_below_sound : (n : ℕ) (p : ℕ → Bool) (x : ℕ) → holds_below n p ≡ true → x < n → p x ≡ true
unfolding holds_below
holds_below_sound zero p x h lt = absurd (omega arith)
holds_below_sound (suc n) p x h lt = ground (arith, holds_below_sound n p x)

top_kept : ℕ → Bool
top_kept x = bit_and x 0x80 == x / 128 * 128

top_table : holds_below 256 top_kept ≡ true
unfolding holds_below top_kept
top_table = refl

top_set : ℕ → Bool
top_set x = bit_or x 0x80 == x + 128

set_table : holds_below 128 top_set ≡ true
unfolding holds_below top_set
set_table = refl

top_kept-below : (b : ℕ) → b < 256 → top_kept b ≡ true
top_kept-below b h = holds_below_sound 256 top_kept b top_table h

top_set-below : (b : ℕ) → b < 128 → top_set b ≡ true
top_set-below b h = holds_below_sound 128 top_set b set_table h

pub bit_and_top : (b : ℕ) → b < 256 → bit_and b 0x80 ≡ b / 128 * 128
unfolding top_kept
bit_and_top b h = (==_iff (bit_and b 0x80) (b / 128 * 128)).0 (top_kept-below b h)

pub bit_or_top : (b : ℕ) → b < 128 → bit_or b 0x80 ≡ b + 128
unfolding top_set
bit_or_top b h = (==_iff (bit_or b 0x80) (b + 128)).0 (top_set-below b h)
