-- ===== src/Vm/Leads.antt =====
-- What holds after an action of the runner returns, by what held before it.
use nether.Prelude.{
  Option, none, some, String, ◌≡◌, refl, ◌∷◌, arith, Bool, true, false, if◌then◌else◌,
}
use text.Mathlib.TextPositions.{eq_refl}
use nether.Prelude.Dict.{lookup, lookup-insert}
use nether.Os.{File, Files, exists}
use nether.Prelude.Outcome.{Outcome, returned, raised}
use nether.Prelude.Action.{pure, raise, resume, ◌>>=◌}
use nether.Errors.{Exc}
use nether.Vm.{Host, World, Run, sent, meta, move, move_in}

-- From a world where `P` holds, if the action returns, then `Q` holds.
pub record Leads (P Q : World → Type 0) {A : Type 0} (m : Run A) : Type 0 where
  pub at : (w : World) (a : A) → P w → (m w).0 ≡ returned a → Q (m w).1

abbrev pub Any : World → Type 0
Any w = Unit

module _ {A : Type 0} (P : World → Type 0) where
  pub Leads-Any : (m : Run A) → Leads P Any m
  Leads-Any m = record { at = λ w a p r. tt }

  pub Leads-pure : (a : A) → Leads P P (pure a)
  Leads-pure a = record { at = λ w a' p r. p }

  pub Leads-if :
      (Q : World → Type 0) (b : Bool) (m n : Run A)
      → Leads P Q m
      → Leads P Q n
      → Leads P Q (if b then m else n)
  Leads-if Q true m n lm ln = lm
  Leads-if Q false m n lm ln = ln

  pub Leads-raise : (Q : World → Type 0) (e : Exc) → Leads P Q (raise {A = A} e)
  Leads-raise Q e = record { at = λ w a p r. cc }

module _ {A B : Type 0} {Q R : World → Type 0} where
  resume-leads :
      (r : Outcome Exc A) (f : A → Run B) (w : World) (b : B)
      → ((a : A) → r ≡ returned a → Q w)
      → ((a : A) → Leads Q R (f a))
      → (resume r f w).0 ≡ returned b
      → R (resume r f w).1
  resume-leads (returned a) f w b q l e = (l a).at w b (q a refl) e
  resume-leads (raised x) f w b q l e = cc

  pub Leads-bind :
      {P : World → Type 0} (m : Run A) (f : A → Run B)
      → Leads P Q m
      → ((a : A) → Leads Q R (f a))
      → Leads P R (m >>= f)
  Leads-bind m f lm lf = record {
    at = λ w b p e. resume-leads (m w).0 f (m w).1 b (λ a. lm.at w a p) lf e;
  }

-- A first step of which nothing is needed.
pub Leads-skip :
    {A B : Type 0} {R : World → Type 0} (m : Run A) (f : A → Run B)
    → ((a : A) → Leads Any R (f a))
    → Leads Any R (m >>= f)
Leads-skip m f l = Leads-bind m f (Leads-Any Any m) l

-- The files after a command and its reply are those that the VM leaves upon the command.
pub files-meta :
    (h : Host) (line : String) (w : World)
    → (meta h line w).1.files ≡ h.writes (sent line ∷ w.trace) w.files
unfolding meta
files-meta h line w = ground arith

-- A file stands at the path.
abbrev pub HasFile : String → World → Type 0
HasFile path w = exists w.files path ≡ true

exists-move_in :
    (from to : String) (o : Option File) (fs : Files) (a : Unit {0})
    → (move_in from to o fs).0 ≡ returned a
    → exists (move_in from to o fs).1 to ≡ true
unfolding move_in
exists-move_in from to none fs a e = cc
exists-move_in from to (some f) fs a e = simp (lookup-insert, eq_refl)

pub HasFile-move : (from to : String) → Leads Any (HasFile to) (move from to)
unfolding move
HasFile-move from to = record {
  at = λ w a _ e. exists-move_in from to (lookup from w.files) w.files a e;
}

-- If the action returns, a file stands at the path. These rules are for `search`.
pub record Leaves (path : String) {A : Type 0} (m : Run A) : Type 0 where
  pub at : (w : World) (a : A) → (m w).0 ≡ returned a → HasFile path (m w).1

module _ {A : Type 0} (path : String) where
  pub Leaves-Leads : (m : Run A) → Leads Any (HasFile path) m → Leaves path m
  Leaves-Leads m l = record { at = λ w a e. l.at w a tt e }

  pub Leads-Leaves : (m : Run A) → Leaves path m → Leads Any (HasFile path) m
  Leads-Leaves m l = record { at = λ w a _ e. l.at w a e }

  pub Leaves-raise : (e : Exc) → Leaves path (raise {A = A} e)
  Leaves-raise e = record { at = λ w a r. cc }

  pub Leaves-if :
      (b : Bool) (m n : Run A) → Leaves path m → Leaves path n → Leaves path (if b then m else n)
  Leaves-if true m n lm ln = lm
  Leaves-if false m n lm ln = ln

pub Leaves-skip :
    {A B : Type 0} (path : String) (m : Run A) (f : A → Run B)
    → ((a : A) → Leaves path (f a))
    → Leaves path (m >>= f)
Leaves-skip path m f l =
    Leaves-Leads path (m >>= f) (Leads-skip m f (λ a. Leads-Leaves path (f a) (l a)))

pub Leaves-move : (from to : String) → Leaves to (move from to)
Leaves-move from to = Leaves-Leads to (move from to) (HasFile-move from to)

pub ruleset leaves_rules = (Leaves-raise, Leaves-if, Leaves-skip, Leaves-move)
