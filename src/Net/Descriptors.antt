-- ===== src/Net/Descriptors.antt =====
-- The descriptors of the process: which are open, which number the kernel gives out next, and how many
-- are free below a bound. POSIX has the kernel give the lowest number that is free.
use asabru_engine.Common.{ℕ, zero, suc, ◌+◌, ◌≤◌, ◌<◌, ◌==◌, ◌≡◌, refl, ap, if◌then◌else◌, arith}
use asabru_engine.Common.{Bool-cases, inl, inr, Option, none, some}
use native.Mathlib.Decide.{dec_lt}

-- The open files of the process, by descriptor.
abbrev pub Table : Type 0
Table = ℕ → Option ℕ

abbrev pub change : ℕ → Option ℕ → Table → Table
change fd v t i = if fd == i then v else t i

-- `close`, which fails on a descriptor that is not open.
abbrev pub close_at : Option ℕ → Table → Table
close_at none t = t
close_at (some fd) t = change fd none t

pub record IsLowest (t : Table) (fd : ℕ) : Type 0 where
  pub unused : t fd ≡ none
  pub used_below : (i : ℕ) → i < fd → (f : ℕ) × (t i ≡ some f)

-- How many numbers below a descriptor are free.
abbrev pub free_at : Option ℕ → ℕ
free_at none = 1
free_at (some f) = 0

abbrev pub free_below : ℕ → Table → ℕ
free_below zero t = 0
free_below (suc i) t = free_at (t i) + free_below i t

pub free_below-above :
    (s fd : ℕ) (v : Option ℕ) (t : Table) → s ≤ fd → free_below s (change fd v t) ≡ free_below s t
free_below-above zero fd v t h = refl
free_below-above (suc s) fd v t h = ground (arith, free_below-above s fd v t)

pub free_below-change :
    (s fd f : ℕ) (t : Table)
    → t fd ≡ none
    → fd < s
    → free_below s (change fd (some f) t) + 1 ≡ free_below s t
free_below-change zero fd f t e h = absurd (omega arith)
free_below-change (suc s) fd f t e h = elim (Bool-cases (fd == s)) [
  | inl here ↦
      let same : fd ≡ s = ground arith in
      ground (arith, same, ap t same, free_below-above s fd (some f) t)
  | inr other ↦ ground (arith, free_below-change s fd f t e)
]

pub none_below :
    (s : ℕ) (t : Table) → ((i : ℕ) → i < s → (f : ℕ) × (t i ≡ some f)) → free_below s t ≡ 0
none_below zero t used = refl
none_below (suc s) t used =
    let (f, open_s) = used s (omega arith) in
    omega (arith, ap free_at open_s, none_below s t (λ i below. used i (omega (arith, below))))

pub lowest-le : (s fd : ℕ) (t : Table) → IsLowest t fd → t s ≡ none → fd ≤ s
lowest-le s fd t low free = elim (dec_lt s fd) [
  | yes above ↦ absurd (let (f, used) = low.used_below s above in ground (arith, used, free))
  | no below ↦ omega (arith, below)
]

pub lowest-below : (s fd : ℕ) (t : Table) → IsLowest t fd → 1 ≤ free_below s t → fd < s
lowest-below s fd t low some_free = elim (dec_lt fd s) [
  | yes below ↦ below
  | no above ↦ absurd (
      omega (
        arith,
        some_free,
        none_below s t (λ i below. low.used_below i (omega (arith, below, above))),
      ))
]

pub lowest-here : (s fd : ℕ) (t : Table) → IsLowest t fd → t s ≡ none → free_below s t ≡ 0 → fd ≡ s
lowest-here s fd t low free all_used = elim (dec_lt fd s) [
  | yes below ↦ absurd (omega (arith, all_used, free_below-change s fd 0 t low.unused below))
  | no above ↦ omega (arith, above, lowest-le s fd t low free)
]
