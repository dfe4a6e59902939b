-- ===== src/Prelude/Dict.antt =====
-- Dictionaries with text keys, as association lists.
use Prim.Native.String.{String}
use mathlib.Core.Path.{◌≡◌, refl}
use mathlib.Core.Option.{Option, none, some}
use mathlib.Core.List.{List, [], ◌∷◌}
use native.Mathlib.Omega.{arith}
use text.Mathlib.Text.{◌==◌ as str_eq}
use text.Mathlib.TextEquality.{eq_iff}
use nether.Prelude.Tests.{if◌then◌else◌}

abbrev pub Dict {ℓ} : Type ℓ → Type ℓ
Dict V = List (String × V)

module _ {ℓ} {V : Type ℓ} where
  unfoldable pub lookup : String → Dict V → Option V
  lookup key [] = none
  lookup key ((name, value) ∷ rest) = if str_eq name key then some value else lookup key rest

  unfoldable pub insert : String → V → Dict V → Dict V
  insert key new [] = (key, new) ∷ []
  insert key new ((name, old) ∷ rest) =
      if str_eq name key then (name, new) ∷ rest else (name, old) ∷ insert key new rest

  -- Every entry of the key goes.
  unfoldable pub erase : String → Dict V → Dict V
  erase key [] = []
  erase key ((name, value) ∷ rest) =
      let left = erase key rest in if str_eq name key then left else (name, value) ∷ left

  pub lookup-insert :
      (key at : String) (new : V) (d : Dict V)
      → lookup at (insert key new d) ≡ (if str_eq key at then some new else lookup at d)
  unfolding insert lookup
  lookup-insert key at new [] = refl
  lookup-insert key at new ((name, old) ∷ rest) =
      ground (lookup-insert key at new rest, eq_iff name key, eq_iff key at, eq_iff name at, arith)

  pub lookup-erase :
      (key at : String) (d : Dict V)
      → lookup at (erase key d) ≡ (if str_eq key at then none else lookup at d)
  unfolding erase lookup
  lookup-erase key at [] = ground arith
  lookup-erase key at ((name, value) ∷ rest) =
      ground (lookup-erase key at rest, eq_iff name key, eq_iff key at, eq_iff name at, arith)

pub ruleset dict_laws = (lookup-insert, lookup-erase)
