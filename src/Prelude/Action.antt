-- ===== src/Prelude/Action.antt =====
-- Python procedures: they change a state, and return a value or raise. What was changed before a
-- raise stays changed, so the state comes back beside the exception too.
use nether.Prelude.Outcome.{Outcome, returned, raised}

abbrev pub Action {ℓ} : Type ℓ → Type ℓ → Type ℓ → Type ℓ
Action S E A = S → Outcome E A × S

module _ {ℓ} {S E A : Type ℓ} where
  abbrev pub pure : A → Action S E A
  pure a s = (returned a, s)

  abbrev pub raise : E → Action S E A
  raise e s = (raised e, s)

  -- A pure function's outcome, as a step that changes nothing.
  abbrev pub lift : Outcome E A → Action S E A
  lift r s = (r, s)

  -- `try: m finally: cleanup`, for a clean-up that does not raise.
  abbrev pub finally : Action S E A → (S → S) → Action S E A
  finally m cleanup s = let (r, s') = m s in (r, cleanup s')

module _ {ℓ} {S E A B : Type ℓ} where
  abbrev pub resume : Outcome E A → (A → Action S E B) → Action S E B
  resume (returned a) f s = f a s
  resume (raised e) f s = (raised e, s)

  infixl 10 ◌>>=◌ ◌>>◌
  abbrev pub ◌>>=◌ : Action S E A → (A → Action S E B) → Action S E B
  ◌>>=◌ m f s = let (r, s') = m s in resume r f s'

  abbrev pub ◌>>◌ : Action S E A → Action S E B → Action S E B
  m >> n = m >>= λ _. n
