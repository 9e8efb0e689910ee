-- ===== src/Common/Faults.antt =====
-- The outcome of code that touches memory: a value, or a fault where the C++ code has undefined
-- behaviour (an access outside its array, a null or a freed pointer).
use mathlib.Core.Path.{◌≡◌, refl}
use mathlib.Core.Logic.{◌⊎◌, inl, inr}

pub data Checked {ℓ} (A : Type ℓ) : Type ℓ where
  ok : A → Checked A
  fault : Checked A

infixl 5 ◌>>=◌ ◌>>◌
abbrev pub ◌>>=◌ {ℓ κ} : {A : Type ℓ} {B : Type κ} → Checked A → (A → Checked B) → Checked B
ok a >>= f = f a
fault >>= f = fault

abbrev pub ◌>>◌ {ℓ κ} : {A : Type ℓ} {B : Type κ} → Checked A → Checked B → Checked B
m >> k = m >>= λ _. k

pub Checked-cases {ℓ} : {A : Type ℓ} (m : Checked A) → (m ≡ fault) ⊎ ((a : A) × (m ≡ ok a))
Checked-cases (ok a) = inr (a, refl)
Checked-cases fault = inl refl
