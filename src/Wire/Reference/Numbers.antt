-- ===== src/Wire/Reference/Numbers.antt =====
-- ReadVarint64 reads, from any bytes, the number that the reference reads.
use asabru_engine.Common.{
  ℕ, zero, suc, ◌+◌, ◌*◌, ◌%◌, ◌^◌, ◌≤◌, ◌<◌, ◌≡◌, refl, ap, ◌∙◌, arith, All,
}
use asabru_engine.Common.{
  Bool, List, [], ◌∷◌, ◌++◌, append_assoc, append-nil, lt→ltb, le→ltb_false, Checked,
}
use mathlib.Core.Path.{subst}
use native.Mathlib.Decide.{dec_lt}
use asabru_engine.Wire.Packets.{IsByte, IsU64}
use asabru_engine.Wire.Reader.{ClickReadProtoBuffer, read_varint64, varint_loop, add_group}
use asabru_engine.Wire.Reader.At.{reader}
use asabru_engine.Wire.Varint.{
  varint_loop-stop, varint_loop-go_on, varint_loop-cut, varint_loop-end, seven_more,
}
use asabru_engine.Wire.Varint.Total.{
  two_pow_le, add_group-below, add_group-IsU64, add_group_inner, add_group_last, groups_below,
  no_rounds,
}
use asabru_engine.Wire.Reference.{
  Parsed, parsed, overrun, map_parsed, onto, groups, word, number, Agrees,
}

tenth_group : (acc b : ℕ) → acc < 2 ^ 63 → add_group acc b 9 ≡ (acc + b % 128 * 2 ^ 63) % 2 ^ 64
tenth_group acc b low = add_group_last acc b low ∙ omega (arith, low)

-- A group goes on top of those before it; what does not fit a `uint64_t` is lost.
add_group_mod :
    (acc b i : ℕ)
    → i ≤ 9
    → acc < 2 ^ (7 * i)
    → add_group acc b i ≡ (acc + b % 128 * 2 ^ (7 * i)) % 2 ^ 64
add_group_mod acc b i hi low = elim (dec_lt i 9) [
  | yes p ↦ omega (arith, add_group_inner acc b i, two_pow_le (i + 1), groups_below acc b i low)
  | no p ↦ let e : i ≡ 9 = omega arith in rw e (tenth_group acc b (rw e at low))
]

-- The groups above bit `7 * i`, on the `acc` below it.
abbrev on_top : ℕ → ℕ → ℕ × Bool → ℕ × Bool
on_top acc i (v, found) = ((acc + v * 2 ^ (7 * i)) % 2 ^ 64, found)

regroup :
    (acc b v i : ℕ)
    → i ≤ 9
    → acc < 2 ^ (7 * i)
    → (add_group acc b i + v * 2 ^ (7 * (i + 1))) % 2 ^ 64
      ≡ (acc + (b % 128 + 128 * v) * 2 ^ (7 * i)) % 2 ^ 64
regroup acc b v i hi low = omega (
  arith,
  add_group_mod acc b i hi low,
  seven_more i,
  spread (b % 128) v (2 ^ (7 * i)),
  ap (λ (t : ℕ). v * t) (seven_more i),
)
  where
    spread : (g v p : ℕ) → (g + 128 * v) * p ≡ g * p + v * (128 * p)
    spread g v p = grind arith

nothing_on_top : (acc i : ℕ) → IsU64 acc → (acc + 0 * 2 ^ (7 * i)) % 2 ^ 64 ≡ acc
nothing_on_top acc i fits = omega (arith, fits)

-- One byte more in front, with the same value.
one_before :
    {A B : Type 0} (b : ℕ) (pre post : List ℕ) {m n : Checked (B × ClickReadProtoBuffer)}
    (f g : A → B) (h : A → A) (p : Parsed A)
    → ((a : A) → f a ≡ g (h a))
    → n ≡ m
    → Agrees (pre ++ (b ∷ [])) post m (map_parsed f p)
    → Agrees pre (b ∷ post) n (map_parsed g (map_parsed h p))
one_before b pre post f g h overrun same e agrees = e ∙ agrees
one_before b pre post f g h (parsed a rest) same e (used, split, outcome) =
    (b ∷ used, ap (◌∷◌ b) split, e ∙ (outcome ∙ rw (append_assoc pre (b ∷ []) used, same a)))

small : (b : ℕ) → b < 128 → b % 128 ≡ b
small b h = omega arith

varint_loop-groups :
    (k i acc : ℕ) (pre post : List ℕ)
    → All IsByte post
    → k + i ≤ 10
    → IsU64 acc
    → (i ≤ 9 → acc < 2 ^ (7 * i))
    → Agrees pre post
        (varint_loop k i acc (reader pre post))
        (map_parsed (on_top acc i) (groups k post))
unfolding groups
varint_loop-groups zero i acc pre post bytes rounds fits low =
    ([], refl, no_rounds i acc (reader pre post) ∙ rw (append-nil pre, nothing_on_top acc i fits))
varint_loop-groups (suc k) i acc pre [] bytes rounds fits low = varint_loop-end k i acc pre
varint_loop-groups (suc k) i acc pre (b ∷ []) bytes rounds fits low =
    (b ∷ [], refl, varint_loop-cut k i acc pre b ∙ rw (nothing_on_top acc i fits))
varint_loop-groups (suc k) i acc pre (b ∷ x ∷ post) bytes rounds fits low = elim (dec_lt b 128) [
  | yes p ↦ rw (lt→ltb b 128 p) (
    b ∷ [],
    refl,
    varint_loop-stop k i acc pre b (x ∷ post) p refl
        ∙ rw (add_group_mod acc b i (omega arith) (low (omega arith)), small b p),
  )
  | no p ↦
      let here : acc < 2 ^ (7 * i) = low (omega arith) in
      rw (le→ltb_false b 128 (omega arith)) (
        one_before b pre (x ∷ post) (on_top (add_group acc b i) (i + 1)) (on_top acc i) (onto b)
          (groups k (x ∷ post)) (λ r. ap (λ v. (v, r.1)) (regroup acc b r.0 i (omega arith) here))
          (varint_loop-go_on k i acc pre b (x ∷ post) (omega arith) bytes.0 refl)
          (varint_loop-groups k (i + 1) (add_group acc b i) (pre ++ (b ∷ [])) (x ∷ post) bytes.1
            (omega arith) (add_group-IsU64 acc b i (omega arith) here)
            (λ more. add_group-below acc b i (omega (arith, more)) here)))
]

map_same :
    {A B : Type 0} (f g : A → B)
    → ((a : A) → f a ≡ g a)
    → (p : Parsed A) → map_parsed f p ≡ map_parsed g p
map_same f g same (parsed a rest) = ap (λ b. parsed b rest) (same a)
map_same f g same overrun = refl

-- On any bytes, ReadVarint64 gives the number of the reference, with the same result, and takes the same
-- bytes; it reads outside the buffer only where nothing is left.
pub read_varint64-number :
    (pre post : List ℕ)
    → All IsByte post
    → Agrees pre post (read_varint64 (reader pre post)) (number post)
unfolding read_varint64 number
read_varint64-number pre post bytes =
    subst (Agrees pre post (read_varint64 (reader pre post)))
      (map_same (on_top 0 0) word whole (groups 10 post))
      (varint_loop-groups 10 0 0 pre post bytes (omega arith) (omega arith) (λ h. omega arith))
  where
    whole : (r : ℕ × Bool) → on_top 0 0 r ≡ word r
    whole (v, found) = ap (λ (n : ℕ). (n, found)) (omega arith)
