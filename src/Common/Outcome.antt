-- ===== src/Common/Outcome.antt =====
-- A computation that returns a value or throws an error of the component's own type.
use mathlib.Core.Path.{◌≡◌}

pub data Outcome {ℓ} (E A : Type ℓ) : Type ℓ where
  err : E → Outcome E A
  ok : A → Outcome E A

-- The next call, which an error skips.
abbrev pub then_call {ℓ} : {E A B : Type ℓ} → (A → Outcome E B) → Outcome E A → Outcome E B
then_call next (err e) = err e
then_call next (ok a) = next a

module _ {ℓ} {E A : Type ℓ} where
  pub ok-injective : {a b : A} → ◌≡◌ {A = Outcome E A} (ok a) (ok b) → a ≡ b
  ok-injective h = cc
