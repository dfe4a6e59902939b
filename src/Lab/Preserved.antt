-- ===== src/Lab/Preserved.antt =====
-- What the code of a proof script keeps: rules for a property of its state.

use nether.Prelude.{ℕ, ◌<◌, Bool, true, false, Option, none, some, if◌then◌else◌, Among}
use nether.Prelude.Outcome.{Outcome, returned, raised}
use nether.Prelude.Action.{pure, raise, resume, ◌>>=◌}
use nether.Lab.{Lab, Script, gets, try_pass, try_or, catch_exit}
use nether.Lab.Reads.{Stop}

module _ {X : Type 0} where
  -- Every process that was launched is in `procs`.
  abbrev pub IsTracked : Lab X → Type 0
  IsTracked w = (p : ℕ) → p < w.made → Among p w.procs

  -- The code keeps the property, whether it returns, raises or never ends.
  pub record Preserves (I : Lab X → Type 0) {A : Type 0} (m : Script X A) : Type 0 where
    pub at : (w : Lab X) → I w → I (m w).1

module _ {X : Type 0} (I : Lab X → Type 0) {A : Type 0} where
  pub Preserves-pure : (a : A) → Preserves I (pure a)
  Preserves-pure a = record { at = λ w h. h }

  pub Preserves-raise : (e : Stop) → Preserves I {A = A} (raise e)
  Preserves-raise e = record { at = λ w h. h }

  pub Preserves-gets : (f : Lab X → A) → Preserves I (gets f)
  Preserves-gets f = record { at = λ w h. h }

  pub Preserves-if :
      (b : Bool) (m n : Script X A)
      → Preserves I m
      → Preserves I n
      → Preserves I (if b then m else n)
  Preserves-if true m n pm pn = pm
  Preserves-if false m n pm pn = pn

module _ {X : Type 0} (I : Lab X → Type 0) {A B : Type 0} where
  resume-preserves :
      (r : Outcome Stop A) (f : A → Script X B) (w : Lab X)
      → ((a : A) → Preserves I (f a))
      → I w
      → I (resume r f w).1
  resume-preserves (returned a) f w p h = (p a).at w h
  resume-preserves (raised e) f w p h = h

  pub Preserves-bind :
      (m : Script X A) (f : A → Script X B)
      → Preserves I m
      → ((a : A) → Preserves I (f a))
      → Preserves I (m >>= f)
  Preserves-bind m f pm pf = record {
    at = λ w h. resume-preserves (m w).0 f (m w).1 pf (pm.at w h);
  }

  pub Preserves-option :
      (o : Option A) (m : Script X B) (f : A → Script X B)
      → Preserves I m
      → ((a : A) → Preserves I (f a))
      → Preserves I (elim o [ none ↦ m | some a ↦ f a ])
  Preserves-option none m f pm pf = pm
  Preserves-option (some a) m f pm pf = pf a

module _ {X : Type 0} (I : Lab X → Type 0) where
  pub Preserves-try_pass : (m : Script X (Unit {0})) → Preserves I m → Preserves I (try_pass m)
  unfolding try_pass
  Preserves-try_pass m p = record { at = λ w h. p.at w h }

  pub Preserves-try_or :
      {A : Type 0} (a : A) (m : Script X A) → Preserves I m → Preserves I (try_or a m)
  unfolding try_or
  Preserves-try_or a m p = record { at = λ w h. p.at w h }

  pub Preserves-catch_exit : (m : Script X (Option ℕ)) → Preserves I m → Preserves I (catch_exit m)
  unfolding catch_exit
  Preserves-catch_exit m p = record { at = λ w h. p.at w h }

-- The rules that do not depend on a call.
pub ruleset flow_rules = (
  Preserves-pure, Preserves-raise, Preserves-gets, Preserves-if, Preserves-bind, Preserves-try_pass,
  Preserves-try_or, Preserves-catch_exit,
)
