-- ===== src/Lab/Stops.antt =====
-- The clean-up of a proof script kills each process that it launched.

use nether.Prelude.{
  ℕ, ◌<◌, String, ◌≡◌, refl, ◌∙◌, Bool, true, false, Option, none, some, List, [], ◌∷◌, inl, inr,
  arith, if◌then◌else◌, Bool-cases, Among, here, there,
}
use nether.Prelude.Outcome.{Outcome, returned, raised}
use nether.Prelude.Action.{pure, resume, ◌>>=◌}
use nether.Lab.{
  Site, Lab, Script, Act, killed, terminated, is_stuck, final, after_act, act, is_there, all_acts,
  stop_all, verdict,
}
use nether.Lab.Preserved.{
  Preserves-gets, Preserves-catch_exit, IsTracked, Preserves, Preserves-bind, Preserves-pure,
}
use nether.Lab.Reads.{Stop, exception, leaves, stuck}

module _ {X : Type 0} where
  -- Every process that was launched was sent a kill.
  abbrev pub IsClosed : Lab X → Type 0
  IsClosed w = (p : ℕ) → p < w.made → Among (killed p) w.trace

  -- The code leaves every process killed, unless it never ends.
  pub record Settles {A : Type 0} (m : Script X A) : Type 0 where
    pub at : (w : Lab X) → IsTracked w → is_stuck (m w).0 ≡ false → IsClosed (m w).1

  -- Begun without processes, the code leaves every process killed, unless it never ends.
  pub record Ends {A : Type 0} (m : Script X A) : Type 0 where
    pub at : (w : Lab X) → w.made ≡ 0 → is_stuck (m w).0 ≡ false → IsClosed (m w).1

  -- The code always returns, and launches nothing.
  pub record IsCalm {A : Type 0} (m : Script X A) : Type 0 where
    pub at : (w : Lab X) → ((a : A) × ((m w).0 ≡ returned a)) × ((m w).1.made ≡ w.made)

module _ {X : Type 0} {A : Type 0} where
  resume-IsClosed :
      {B : Type 0} (r : Outcome Stop A) (w : Lab X) (f : A → Script X B)
      → ((a : A) → Preserves IsClosed (f a))
      → is_stuck (resume r f w).0 ≡ false
      → (is_stuck r ≡ false → IsClosed w)
      → IsClosed (resume r f w).1
  unfolding is_stuck
  resume-IsClosed (returned a) w f p n g = (p a).at w (g refl)
  resume-IsClosed (raised (exception e)) w f p n g = g refl
  resume-IsClosed (raised leaves) w f p n g = g refl
  resume-IsClosed (raised stuck) w f p n g = absurd cc

  resume-Ends :
      {B : Type 0} (r : Outcome Stop A) (w : Lab X) (f : A → Script X B)
      → (a : A) × (r ≡ returned a)
      → ((a : A) → Ends (f a))
      → w.made ≡ 0
      → is_stuck (resume r f w).0 ≡ false
      → IsClosed (resume r f w).1
  resume-Ends (returned a) w f c ef e n = (ef a).at w e n
  resume-Ends (raised x) w f c ef e n = absurd (cc c.1)

  pub Settles-bind :
      {B : Type 0} (m : Script X A) (f : A → Script X B)
      → Settles m
      → ((a : A) → Preserves IsClosed (f a))
      → Settles (m >>= f)
  Settles-bind m f s p = record { at = λ w h n. resume-IsClosed (m w).0 (m w).1 f p n (s.at w h) }

  pub Ends-Settles : (m : Script X A) → Settles m → Ends m
  Ends-Settles m s = record { at = λ w e n. s.at w (λ p b. absurd (omega arith)) n }

  pub Ends-pure : (a : A) → Ends {X = X} (pure a)
  Ends-pure a = record { at = λ w e n p b. absurd (omega arith) }

  pub Ends-if : (b : Bool) (m n : Script X A) → Ends m → Ends n → Ends (if b then m else n)
  Ends-if true m n em en = em
  Ends-if false m n em en = en

  pub Ends-bind :
      {B : Type 0} (m : Script X A) (f : A → Script X B)
      → IsCalm m
      → ((a : A) → Ends (f a))
      → Ends (m >>= f)
  Ends-bind m f c ef = record {
    at = λ w e. resume-Ends (m w).0 (m w).1 f (c.at w).0 ef ((c.at w).1 ∙ e);
  }

  resume_calm :
      {B : Type 0} (r : Outcome Stop A) (w : Lab X) (f : A → Script X B)
      → (a : A) × (r ≡ returned a)
      → ((a : A) → IsCalm (f a))
      → ((b : B) × ((resume r f w).0 ≡ returned b)) × ((resume r f w).1.made ≡ w.made)
  resume_calm (returned a) w f c cf = (cf a).at w
  resume_calm (raised x) w f c cf = absurd (cc c.1)

  pub IsCalm-bind :
      {B : Type 0} (m : Script X A) (f : A → Script X B)
      → IsCalm m
      → ((a : A) → IsCalm (f a))
      → IsCalm (m >>= f)
  IsCalm-bind m f c cf = record {
    at = λ w. let k = resume_calm (m w).0 (m w).1 f (c.at w).0 cf in (k.0, k.1 ∙ (c.at w).1);
  }

module _ {X : Type 0} (L : Site X) where
  pub IsCalm-act : (a : Act) → IsCalm (act L a)
  unfolding act
  IsCalm-act a = record { at = λ w. ((tt, refl), refl) }

  pub IsCalm-is_there : (p : String) → IsCalm (is_there L p)
  unfolding is_there
  IsCalm-is_there p = record { at = λ w. ((_, refl), refl) }

  all_acts-made : (a : ℕ → Act) (ps : List ℕ) (w : Lab X) → (all_acts L a ps w).made ≡ w.made
  unfolding all_acts
  all_acts-made a [] w = refl
  all_acts-made a (p ∷ ps) w = all_acts-made a ps (after_act L (a p) w)

  all_acts-grows :
      {b : Act} (a : ℕ → Act) (ps : List ℕ) (w : Lab X)
      → Among b w.trace
      → Among b (all_acts L a ps w).trace
  unfolding all_acts
  all_acts-grows a [] w h = h
  all_acts-grows a (p ∷ ps) w h = all_acts-grows a ps (after_act L (a p) w) (there h)

  all_acts-done :
      {p : ℕ} (a : ℕ → Act) (ps : List ℕ) (w : Lab X)
      → Among p ps
      → Among (a p) (all_acts L a ps w).trace
  unfolding all_acts
  all_acts-done a [] w h = elim h [ ]
  all_acts-done a (p ∷ ps) w here = all_acts-grows a ps (after_act L (a p) w) here
  all_acts-done a (p ∷ ps) w (there h) = all_acts-done a ps (after_act L (a p) w) h

  pub stop_all-IsClosed : (pause : ℕ) (w : Lab X) → IsTracked w → IsClosed (stop_all L pause w)
  unfolding stop_all
  stop_all-IsClosed pause w h p b =
      let same = all_acts-made killed w.procs _ ∙ all_acts-made terminated w.procs w in
      all_acts-done killed w.procs _ (h p (rw (← same) b))

  pub Settles-final :
      {A : Type 0} (pause : ℕ) (m : Script X A)
      → Preserves IsTracked m
      → Settles (final m (stop_all L pause))
  unfolding final
  Settles-final pause m p = record {
    at = λ w h n. elim (Bool-cases (is_stuck (m w).0)) [
      | inl e ↦ absurd (cc (e, n))
      | inr e ↦ rw e (stop_all-IsClosed pause (m w).1 (p.at w h))
    ];
  }

  pub IsClosed-verdict : (r : Option ℕ) → Preserves IsClosed (verdict L r)
  unfolding verdict
  IsClosed-verdict none = record { at = λ w h. h }
  IsClosed-verdict (some n) = record { at = λ w h. h }

pub ruleset end_rules = (
  Ends-pure, Ends-if, Ends-bind, Ends-Settles, IsCalm-bind, IsCalm-act, IsCalm-is_there,
  Settles-bind, Settles-final, Preserves-pure, Preserves-gets, Preserves-bind, IsClosed-verdict,
  Preserves-catch_exit,
)
