-- ===== src/Cli/Dry.antt =====
-- main of scripts/bake.py with --dry-run.
use nether.Prelude.{
  ℕ, String, ◌≡◌, refl, ap, ◌∙◌, Bool, true, false, Option, none, some, List, ◌∷◌, if◌then◌else◌,
}
use nether.Prelude.Outcome.{Outcome, returned, raised}
use nether.Prelude.Action.{pure, raise, lift, resume, ◌>>=◌}
use nether.Errors.{Exc, value_error}
use nether.Gc.{reap_parks}
use nether.Gc.Parks.{reap_parks-dry_still}
use nether.Vm.{World, Run, gets, on_files}
use nether.Bake.{Env}
use nether.Cli.{is_given, value_of, value_or, ttl_of, gc_parks, run_gc, main}

-- The code leaves the whole world as it is, whether it returns or raises.
record IsStill {A : Type 0} (m : Run A) : Type 0 where
  pub at : (w : World) → (m w).1 ≡ w

module _ {A : Type 0} where
  IsStill-pure : (a : A) → IsStill (pure a)
  IsStill-pure a = record { at = λ w. refl }

  IsStill-raise : (x : Exc) → IsStill {A = A} (raise x)
  IsStill-raise x = record { at = λ w. refl }

  IsStill-lift : (r : Outcome Exc A) → IsStill (lift r)
  IsStill-lift r = record { at = λ w. refl }

  IsStill-gets : (f : World → A) → IsStill (gets f)
  unfolding gets
  IsStill-gets f = record { at = λ w. refl }

  IsStill-if : (b : Bool) (m n : Run A) → IsStill m → IsStill n → IsStill (if b then m else n)
  IsStill-if true m n sm sn = sm
  IsStill-if false m n sm sn = sn

  -- The branch that is taken.
  IsStill-then : (b : Bool) (m n : Run A) → b ≡ true → IsStill m → IsStill (if b then m else n)
  IsStill-then true m n h sm = sm
  IsStill-then false m n h sm = absurd cc

module _ {A B : Type 0} where
  resume-still :
      (r : Outcome Exc A) (f : A → Run B) (w : World)
      → ((a : A) → IsStill (f a))
      → (resume r f w).1 ≡ w
  resume-still (returned a) f w s = (s a).at w
  resume-still (raised x) f w s = refl

  IsStill-bind :
      (m : Run A) (f : A → Run B) → IsStill m → ((a : A) → IsStill (f a)) → IsStill (m >>= f)
  IsStill-bind m f sm sf = record { at = λ w. resume-still (m w).0 f (m w).1 sf ∙ sm.at w }

  IsStill-option :
      (o : Option A) (m : Run B) (f : A → Run B)
      → IsStill m
      → ((a : A) → IsStill (f a))
      → IsStill (elim o [ none ↦ m | some a ↦ f a ])
  IsStill-option none m f sm sf = sm
  IsStill-option (some a) m f sm sf = sf a

ruleset still_rules =
    (IsStill-pure, IsStill-raise, IsStill-lift, IsStill-gets, IsStill-if, IsStill-bind)

module _ (e : Env) (kernels base_work : String) (number : String → Option ℕ)
    (selftest : Run ℕ) where
  IsStill-reap_parks :
      (d : String) (ttl now : ℕ) (dry : Bool)
      → dry ≡ true
      → IsStill (on_files (reap_parks e.os d ttl dry now))
  unfolding on_files
  IsStill-reap_parks d ttl now true h = record {
    at = λ w. ap (λ fs. record w { files = fs }) (reap_parks-dry_still e.os d ttl now w.files);
  }
  IsStill-reap_parks d ttl now false h = absurd cc

  IsStill-ttl_of : (argv : List String) → IsStill (ttl_of e kernels base_work number selftest argv)
  unfolding ttl_of
  IsStill-ttl_of argv =
      IsStill-bind _ _ (IsStill-lift (value_of "--ttl-s" argv))
        (λ v. IsStill-option (number v) _ _ (IsStill-raise value_error) (λ n. IsStill-pure n))

  IsStill-gc_parks :
      (d : String) (argv : List String)
      → is_given "--dry-run" argv ≡ true
      → IsStill (gc_parks e kernels base_work number selftest d argv)
  unfolding gc_parks
  IsStill-gc_parks d argv dry =
      search (still_rules, IsStill-ttl_of, IsStill-reap_parks, dry) depth 12

  IsStill-run_gc :
      (argv : List String)
      → is_given "--parks" argv ≡ true
      → is_given "--dry-run" argv ≡ true
      → IsStill (run_gc e kernels base_work number selftest argv)
  unfolding run_gc
  IsStill-run_gc argv parks dry =
      IsStill-bind _ _ (IsStill-lift (value_or "." "--dir" argv))
        (λ d. IsStill-then (is_given "--parks" argv) _ _ parks (IsStill-gc_parks d argv dry))

  -- With gc, and --parks and --dry-run among the arguments, whatever the others are, and also where one
  -- is missing or no number, main changes nothing: no file, no VM, no time.
  pub main_dry :
      (rest : List String) (w : World)
      → is_given "--parks" rest ≡ true
      → is_given "--dry-run" rest ≡ true
      → (main e kernels base_work number selftest ("gc" ∷ rest) w).1 ≡ w
  unfolding main is_given
  main_dry rest w parks dry = (IsStill-run_gc ("gc" ∷ rest) parks dry).at w
