-- ===== src/Wire/Varint/Total.antt =====
-- ReadVarint64 on any input: what it takes, and where it fails.
use asabru_engine.Common.{ℕ, zero, suc, ◌+◌, ◌*◌, ◌%◌, ◌^◌, ◌≤◌, ◌<◌}
use asabru_engine.Common.{◌≡◌, refl, ap, ◌∙◌, Bool, true, false, List, [], ◌∷◌, ◌++◌, arith}
use asabru_engine.Common.{Checked, ok, fault, append_assoc, length, All}
use asabru_engine.Common.{◌⊎◌, inl, inr}
use native.Mathlib.Decide.{dec_lt}
use native.Mathlib.Nat.{pow-le-pow_right}
use asabru_engine.Common.Bits.{bit_and_low, bit_or_high}
use asabru_engine.Wire.Packets.{IsByte, IsU64}
use asabru_engine.Wire.Reader.{ClickReadProtoBuffer, read_varint64, varint_loop, add_group}
use asabru_engine.Wire.Reader.At.{reader, not_empty}
use asabru_engine.Wire.Varint.{varint_loop-stop, varint_loop-go_on, varint_loop-cut}
use asabru_engine.Wire.Varint.{varint_loop-end, add_group_fits, seven_more}

-- A read of a number that took the bytes `used` off `post` and left `rest`.
pub record Takes (limit : ℕ) (pre post : List ℕ) (m : Checked ((ℕ × Bool) × ClickReadProtoBuffer))
    : Type 0 where
  pub value : ℕ
  pub found : Bool
  pub used : List ℕ
  pub rest : List ℕ
  pub split : post ≡ used ++ rest
  pub outcome : m ≡ ok ((value, found), reader (pre ++ used) rest)
  pub fits : IsU64 value
  pub at_least_one : 1 ≤ length used
  pub at_most : length used ≤ limit
  pub more_left : (found ≡ false) ⊎ (not_empty rest ≡ true)

pub two_pow_le : (i : ℕ) → i ≤ 9 → 2 ^ (7 * i) ≤ 2 ^ 63
two_pow_le i h = pow-le-pow_right (omega arith) {i = 7 * i} {j = 63} (omega arith)

-- The groups so far stay below the next one.
pub groups_below :
    (acc b i : ℕ) → acc < 2 ^ (7 * i) → acc + b % 128 * 2 ^ (7 * i) < 2 ^ (7 * (i + 1))
groups_below acc b i low = rw (seven_more i) (spread (b % 128) (2 ^ (7 * i)) (omega arith) low)
  where
    spread : (g m : ℕ) → g < 128 → acc < m → acc + g * m < 128 * m
    spread g m hg h = grind arith

pub add_group_inner :
    (acc b i : ℕ) → i ≤ 8 → acc < 2 ^ (7 * i) → add_group acc b i ≡ acc + b % 128 * 2 ^ (7 * i)
add_group_inner acc b i hi low =
    add_group_fits acc b i low (omega (arith, two_pow_le (i + 1), groups_below acc b i low))

pub add_group-below :
    (acc b i : ℕ) → i ≤ 8 → acc < 2 ^ (7 * i) → add_group acc b i < 2 ^ (7 * (i + 1))
add_group-below acc b i hi low = rw (add_group_inner acc b i hi low) (groups_below acc b i low)

-- Of the tenth group one bit is kept.
pub add_group_last : (acc b : ℕ) → acc < 2 ^ 63 → add_group acc b 9 ≡ acc + b % 2 * 2 ^ 63
add_group_last acc b low = rw (bit_and_low b, kept) (bit_or_high 63 acc (b % 2) low)
  where
    kept : b % 128 * 2 ^ (7 * 9) % 2 ^ 64 ≡ b % 2 * 2 ^ 63
    kept = omega arith

top_group : (acc b : ℕ) → acc < 2 ^ 63 → IsU64 (add_group acc b 9)
top_group acc b low = rw (add_group_last acc b low) (omega arith)

pub add_group-IsU64 : (acc b i : ℕ) → i ≤ 9 → acc < 2 ^ (7 * i) → IsU64 (add_group acc b i)
add_group-IsU64 acc b i hi low = elim (dec_lt i 9) [
  | yes p ↦ omega (arith, add_group-below acc b i, two_pow_le (i + 1))
  | no p ↦ let e : i ≡ 9 = omega arith in rw e (top_group acc b (rw e at low))
]

longer :
    {limit : ℕ} {pre post : List ℕ} (b : ℕ) {m n : Checked ((ℕ × Bool) × ClickReadProtoBuffer)}
    → n ≡ m
    → Takes limit (pre ++ (b ∷ [])) post m
    → Takes (suc limit) pre (b ∷ post) n
longer {pre = pre} b same t = record {
  value = t.value;
  found = t.found;
  used = b ∷ t.used;
  rest = t.rest;
  split = ap (◌∷◌ b) t.split;
  outcome = same ∙ t.outcome ∙ rw (append_assoc pre (b ∷ []) t.used);
  fits = t.fits;
  at_least_one = omega arith;
  at_most = omega (arith, t.at_most);
  more_left = t.more_left;
}

one_byte :
    (k : ℕ) (pre : List ℕ) (b : ℕ) (rest : List ℕ) (value : ℕ) (found : Bool)
    (m : Checked ((ℕ × Bool) × ClickReadProtoBuffer))
    → m ≡ ok ((value, found), reader (pre ++ (b ∷ [])) rest)
    → IsU64 value
    → ((found ≡ false) ⊎ (not_empty rest ≡ true))
    → Takes (suc k) pre (b ∷ rest) m
one_byte k pre b rest value found m e fits more = record {
  value = value;
  found = found;
  used = b ∷ [];
  rest = rest;
  split = refl;
  outcome = e;
  fits = fits;
  at_least_one = omega arith;
  at_most = omega arith;
  more_left = more;
}

pub no_rounds :
    (i acc : ℕ) (r : ClickReadProtoBuffer) → varint_loop zero i acc r ≡ ok ((acc, false), r)
unfolding varint_loop
no_rounds i acc r = refl

stops :
    (k i acc : ℕ) (pre : List ℕ) (b x : ℕ) (post : List ℕ)
    → b < 128
    → i ≤ 9
    → acc < 2 ^ (7 * i)
    → Takes (suc k) pre (b ∷ x ∷ post) (varint_loop (suc k) i acc (reader pre (b ∷ x ∷ post)))
stops k i acc pre b x post p hi low =
    one_byte k pre b (x ∷ post) (add_group acc b i) true _
      (varint_loop-stop k i acc pre b (x ∷ post) p refl) (add_group-IsU64 acc b i hi low) (inr refl)

varint_loop-Takes :
    (k i acc : ℕ) (pre : List ℕ) (b : ℕ) (post : List ℕ)
    → All IsByte (b ∷ post)
    → suc k + i ≤ 10
    → acc < 2 ^ (7 * i)
    → Takes (suc k) pre (b ∷ post) (varint_loop (suc k) i acc (reader pre (b ∷ post)))
varint_loop-Takes k i acc pre b [] bytes hk low =
    one_byte k pre b [] acc false _ (varint_loop-cut k i acc pre b) (omega (arith, two_pow_le i))
      (inl refl)
varint_loop-Takes zero i acc pre b (x ∷ post) bytes hk low = elim (dec_lt b 128) [
  | yes p ↦ stops zero i acc pre b x post p (omega arith) low
  | no p ↦
      one_byte zero pre b (x ∷ post) (add_group acc b i) false _
        (varint_loop-go_on zero i acc pre b (x ∷ post) (omega arith) bytes.0 refl
          ∙ no_rounds (i + 1) (add_group acc b i) _)
        (add_group-IsU64 acc b i (omega arith) low) (inl refl)
]
varint_loop-Takes (suc k) i acc pre b (x ∷ post) bytes hk low = elim (dec_lt b 128) [
  | yes p ↦ stops (suc k) i acc pre b x post p (omega arith) low
  | no p ↦ longer b (varint_loop-go_on (suc k) i acc pre b (x ∷ post) (omega arith) bytes.0 refl) (
      varint_loop-Takes k (i + 1) (add_group acc b i) (pre ++ (b ∷ [])) x post bytes.1 (omega arith)
        (add_group-below acc b i (omega arith) low))
]

-- On every non-empty input ReadVarint64 touches no memory outside the buffer: it takes 1 to 10 of the
-- bytes that are left, gives a `uint64_t`, and reports success only if at least one byte is left.
pub read_varint64-Takes :
    (pre : List ℕ) (b : ℕ) (post : List ℕ)
    → All IsByte (b ∷ post)
    → Takes 10 pre (b ∷ post) (read_varint64 (reader pre (b ∷ post)))
unfolding read_varint64
read_varint64-Takes pre b post bytes =
    varint_loop-Takes 9 0 0 pre b post bytes (omega arith) (omega arith)

-- With nothing left to read, ReadVarint64 reads outside the buffer.
pub read_varint64-end : (pre : List ℕ) → read_varint64 (reader pre []) ≡ fault
unfolding read_varint64
read_varint64-end pre = varint_loop-end 9 0 0 pre
