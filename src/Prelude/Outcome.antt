-- ===== src/Prelude/Outcome.antt =====
-- What a Python function does in the end: it returns a value or raises an exception of type `E`.
use mathlib.Core.Path.{◌≡◌, refl}
use mathlib.Core.Logic.{◌⊎◌, inl, inr}

pub data Outcome {ℓ} (E A : Type ℓ) : Type ℓ where
  returned : A → Outcome E A
  raised : E → Outcome E A

module _ {ℓ} {E A B : Type ℓ} where
  infixl 10 ◌>>=◌ ◌>>◌
  abbrev pub ◌>>=◌ : Outcome E A → (A → Outcome E B) → Outcome E B
  returned a >>= f = f a
  raised e >>= f = raised e

  abbrev pub ◌>>◌ : Outcome E A → Outcome E B → Outcome E B
  m >> n = m >>= λ _. n

  -- Inversion of a bind that returns.
  pub >>=-returns :
      (m : Outcome E A) (f : A → Outcome E B) {b : B}
      → (m >>= f) ≡ returned b
      → (a : A) × (m ≡ returned a) × (f a ≡ returned b)
  >>=-returns (returned a) f h = (a, refl, h)
  >>=-returns (raised e) f h = cc

pub Outcome-cases {ℓ} :
    {E A : Type ℓ} (m : Outcome E A) → ((a : A) × (m ≡ returned a)) ⊎ ((e : E) × (m ≡ raised e))
Outcome-cases (returned a) = inl (a, refl)
Outcome-cases (raised e) = inr (e, refl)
