-- ===== src/Wire/Varint/RoundTrip.antt =====
-- ReadVarint64 on what WriteVarint64 wrote.
use asabru_engine.Common.{ℕ, zero, suc, ◌+◌, ◌*◌, ◌/◌, ◌%◌, ◌^◌, ◌≤◌, ◌<◌}
use asabru_engine.Common.{◌≡◌, refl, ap, ◌∙◌, true, List, [], ◌∷◌, ◌++◌, arith}
use asabru_engine.Common.{ok, append_assoc}
use native.Mathlib.Decide.{dec_lt}
use native.Mathlib.Nat.{pow-suc, div-add-mod, add_assoc}
use asabru_engine.Wire.Packets.{IsU64}
use asabru_engine.Wire.Writer.{varint_bytes}
use asabru_engine.Wire.Reader.{read_varint64, varint_loop}
use asabru_engine.Wire.Reader.At.{reader, not_empty}
use asabru_engine.Wire.Varint.{varint_bytes-last, varint_bytes-more, varint_loop-stop}
use asabru_engine.Wire.Varint.{varint_loop-go_on, add_group_fits, seven_more}

-- The lowest group of `v` and the groups above it, from bit `7 * i` on.
split_group : (v i : ℕ) → v * 2 ^ (7 * i) ≡ v % 128 * 2 ^ (7 * i) + v / 128 * 2 ^ (7 * (i + 1))
split_group v i = omega (
  arith,
  ap (λ (t : ℕ). t * 2 ^ (7 * i)) (div-add-mod v 128),
  ap (λ (t : ℕ). v / 128 * t) (seven_more i),
)

not_empty-append : (xs ys : List ℕ) → not_empty ys ≡ true → not_empty (xs ++ ys) ≡ true
not_empty-append [] ys h = h
not_empty-append (x ∷ xs) ys h = refl

group_below : (acc g m : ℕ) → acc < m → g < 128 → acc + g * m < 128 * m
group_below acc g m h hg = grind arith

-- A round on the last group, and on a group that others follow.
last_group :
    (k i acc v : ℕ) (pre rest : List ℕ)
    → v < 128
    → acc < 2 ^ (7 * i)
    → IsU64 (acc + v * 2 ^ (7 * i))
    → not_empty rest ≡ true
    → varint_loop (suc k) i acc (reader pre (v ∷ rest))
      ≡ ok ((acc + v * 2 ^ (7 * i), true), reader (pre ++ (v ∷ [])) rest)
last_group k i acc v pre rest hv low fits more =
    varint_loop-stop k i acc pre v rest hv more
    ∙ rw (add_group_fits acc v i low (rw small (omega arith))) (rw small)
  where
    small : v % 128 ≡ v
    small = omega arith

inner_group :
    (k i acc v : ℕ) (pre rest : List ℕ)
    → 128 ≤ v
    → acc < 2 ^ (7 * i)
    → IsU64 (acc + v * 2 ^ (7 * i))
    → not_empty rest ≡ true
    → let b = v % 128 + 128 in
      let tail = varint_bytes (suc k) (v / 128) in
      (varint_loop
          (suc k)
          (i + 1)
          (acc + v % 128 * 2 ^ (7 * i))
          (reader (pre ++ (b ∷ [])) (tail ++ rest))
        ≡ ok (
          (acc + v % 128 * 2 ^ (7 * i) + v / 128 * 2 ^ (7 * (i + 1)), true),
          reader ((pre ++ (b ∷ [])) ++ tail) rest,
        ))
      → varint_loop (suc (suc k)) i acc (reader pre (varint_bytes (suc (suc k)) v ++ rest))
        ≡ ok ((acc + v * 2 ^ (7 * i), true), reader (pre ++ varint_bytes (suc (suc k)) v) rest)
inner_group k i acc v pre rest big low fits more later =
    rw (varint_bytes-more (suc k) v big, split_group v i)
      (varint_loop-go_on (suc k) i acc pre b (tail ++ rest) (omega arith) (omega arith)
          (not_empty-append tail rest more)
        ∙ rw (add_group_fits acc b i low (rw low_bits (omega (arith, split_group v i))), low_bits)
            (later ∙ rw (append_assoc pre (b ∷ []) tail, add_assoc acc)))
  where
    b : ℕ
    b = v % 128 + 128

    tail : List ℕ
    tail = varint_bytes (suc k) (v / 128)

    low_bits : b % 128 ≡ v % 128
    low_bits = omega arith

varint_loop-varint_bytes :
    (k i acc v : ℕ) (pre rest : List ℕ)
    → v < 128 ^ suc k
    → acc < 2 ^ (7 * i)
    → IsU64 (acc + v * 2 ^ (7 * i))
    → not_empty rest ≡ true
    → varint_loop (suc k) i acc (reader pre (varint_bytes (suc k) v ++ rest))
      ≡ ok ((acc + v * 2 ^ (7 * i), true), reader (pre ++ varint_bytes (suc k) v) rest)
varint_loop-varint_bytes zero i acc v pre rest hv low fits more =
    rw (varint_bytes-last 0 v hv) (last_group 0 i acc v pre rest hv low fits more)
varint_loop-varint_bytes (suc k) i acc v pre rest hv low fits more = elim (dec_lt v 128) [
  | yes p ↦ rw (varint_bytes-last (suc k) v p) (last_group (suc k) i acc v pre rest p low fits more)
  | no p ↦ inner_group k i acc v pre rest (omega arith) low fits more (
      varint_loop-varint_bytes k (i + 1) (acc + v % 128 * 2 ^ (7 * i)) (v / 128)
        (pre ++ ((v % 128 + 128) ∷ [])) rest (omega (arith, pow-suc 128 (suc k)))
        (omega (arith, seven_more i, group_below acc (v % 128) (2 ^ (7 * i))))
        (omega (arith, split_group v i)) more)
]

-- ReadVarint64 gives back each `uint64_t` that WriteVarint64 wrote, consuming exactly its bytes, if
-- at least one more byte follows in the buffer.
pub read_varint64-varint_bytes :
    (v : ℕ) (pre rest : List ℕ)
    → IsU64 v
    → not_empty rest ≡ true
    → read_varint64 (reader pre (varint_bytes 10 v ++ rest))
      ≡ ok ((v, true), reader (pre ++ varint_bytes 10 v) rest)
unfolding read_varint64
read_varint64-varint_bytes v pre rest h more =
    varint_loop-varint_bytes 9 0 0 v pre rest (omega arith) (omega arith) (omega arith) more
    ∙ rw (plain v)
  where
    plain : (n : ℕ) → 0 + n * 2 ^ (7 * 0) ≡ n
    plain n = omega arith
