-- ===== src/Base/Results.antt =====
-- A call that may panic, and a fallible result.
use mathlib.Core.Path.{◌≡◌, refl}
use mathlib.Core.Logic.{◌⊎◌, inl, inr}

-- `panic` is a Rust panic: an assertion, an `unreachable!`, an index out of bounds, or an
-- arithmetic overflow in a build that checks for it.
pub data Run {ℓ} (A : Type ℓ) : Type ℓ where
  panic : Run A
  returns : A → Run A

pub data Result {ℓ} (E : Type ℓ) (A : Type ℓ) : Type ℓ where
  ok : A → Result E A
  err : E → Result E A

infixl 5 ◌>>=◌
abbrev pub ◌>>=◌ {ℓ κ} : {A : Type ℓ} {B : Type κ} → Run A → (A → Run B) → Run B
panic >>= f = panic
returns a >>= f = f a

pub >>=-eq-returns {ℓ κ} :
    {A : Type ℓ} {B : Type κ} (m : Run A) (f : A → Run B) {b : B}
    → (m >>= f) ≡ returns b
    → (a : A) × (m ≡ returns a) × (f a ≡ returns b)
>>=-eq-returns panic f h = cc
>>=-eq-returns (returns a) f h = (a, refl, h)

pub Run-cases {ℓ} : {A : Type ℓ} (m : Run A) → (m ≡ panic) ⊎ ((a : A) × (m ≡ returns a))
Run-cases panic = inl refl
Run-cases (returns a) = inr (a, refl)
