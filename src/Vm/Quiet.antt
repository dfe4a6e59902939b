-- ===== src/Vm/Quiet.antt =====
-- How many VMs an action leaves running: rules for the calls of scripts/bake.py that neither
-- launch nor kill one.
use nether.Prelude.{
  ℕ, zero, suc, ◌-◌, ◌+◌, String, ◌≡◌, refl, ◌∙◌, Bool, true, false, List, [], ◌∷◌, arith,
  if◌then◌else◌,
}
use nether.Prelude.Outcome.{Outcome, returned, raised}
use nether.Prelude.Action.{pure, raise, lift, resume, ◌>>=◌}
use nether.Os.{Bytes, Files, Os}
use nether.Errors.{Exc}
use nether.Wire.{Recv}
use nether.Vm.{
  Host, World, Run, Op, launched, killed, sleep, gets, on_files, write, move, send, receive, cmd,
  meta, uconn, wait_from, wait_sock, nether_transform,
}

-- How many VMs run, by the calls made, the latest first.
unfoldable pub running : List Op → ℕ
running [] = 0
running (launched work ∷ t) = suc (running t)
running (killed ∷ t) = running t - 1
running (_ ∷ t) = running t

-- The action launches and kills none, whether it returns or raises.
pub record IsQuiet {A : Type 0} (m : Run A) : Type 0 where
  pub at : (w : World) → running (m w).1.trace ≡ running w.trace

module _ {A : Type 0} where
  pub IsQuiet-pure : (a : A) → IsQuiet (pure a)
  IsQuiet-pure a = record { at = λ w. refl }

  pub IsQuiet-raise : (e : Exc) → IsQuiet (raise {A = A} e)
  IsQuiet-raise e = record { at = λ w. refl }

  pub IsQuiet-lift : (r : Outcome Exc A) → IsQuiet (lift r)
  IsQuiet-lift r = record { at = λ w. refl }

  pub IsQuiet-if : (b : Bool) (m n : Run A) → IsQuiet m → IsQuiet n → IsQuiet (if b then m else n)
  IsQuiet-if true m n qm qn = qm
  IsQuiet-if false m n qm qn = qn

  pub IsQuiet-gets : (f : World → A) → IsQuiet (gets f)
  unfolding gets
  IsQuiet-gets f = record { at = λ w. refl }

  pub IsQuiet-on_files : (f : Files → Outcome Exc A × Files) → IsQuiet (on_files f)
  unfolding on_files
  IsQuiet-on_files f = record { at = λ w. refl }

module _ {A B : Type 0} where
  pub resume-quiet :
      (r : Outcome Exc A) (f : A → Run B) (w : World)
      → ((a : A) → IsQuiet (f a))
      → running (resume r f w).1.trace ≡ running w.trace
  resume-quiet (returned a) f w q = (q a).at w
  resume-quiet (raised e) f w q = refl

  pub IsQuiet-bind :
      (m : Run A) (f : A → Run B) → IsQuiet m → ((a : A) → IsQuiet (f a)) → IsQuiet (m >>= f)
  IsQuiet-bind m f qm qf = record { at = λ w. resume-quiet (m w).0 f (m w).1 qf ∙ qm.at w }

pub ruleset quiet_rules = (
  IsQuiet-pure, IsQuiet-raise, IsQuiet-lift, IsQuiet-if, IsQuiet-gets, IsQuiet-on_files,
  IsQuiet-bind,
)

pub IsQuiet-sleep : (us : ℕ) → IsQuiet (sleep us)
unfolding sleep
IsQuiet-sleep us = record { at = λ w. refl }

pub IsQuiet-write : (path : String) (b : Bytes) → IsQuiet (write path b)
unfolding write
IsQuiet-write path b = record { at = λ w. refl }

pub IsQuiet-move : (from to : String) → IsQuiet (move from to)
unfolding move
IsQuiet-move from to = record { at = λ w. refl }

module _ (h : Host) where
  pub IsQuiet-send : (line : String) → IsQuiet (send h line)
  unfolding send running
  IsQuiet-send line = record { at = λ w. refl }

  pub IsQuiet-receive :
      (reader : List Recv → Outcome Exc Bytes × List Recv) → IsQuiet (receive h reader)
  unfolding receive
  IsQuiet-receive reader = record { at = λ w. refl }

  pub IsQuiet-cmd : (line : String) → IsQuiet (cmd h line)
  unfolding cmd
  IsQuiet-cmd line = search (quiet_rules, IsQuiet-send, IsQuiet-receive)

  pub IsQuiet-meta : (line : String) → IsQuiet (meta h line)
  unfolding meta
  IsQuiet-meta line = search (quiet_rules, IsQuiet-send, IsQuiet-receive)

  pub IsQuiet-uconn : (path : String) → IsQuiet (uconn h path)
  unfolding uconn running
  IsQuiet-uconn path = record { at = λ w. ground arith }

  wait_from-quiet :
      (fuel : ℕ) (path : String) (t0 timeout : ℕ) (w : World)
      → running (wait_from h fuel path t0 timeout w).1.trace ≡ running w.trace
  unfolding wait_from
  wait_from-quiet zero path t0 timeout w = refl
  wait_from-quiet (suc fuel) path t0 timeout w =
      ground (arith, wait_from-quiet fuel path t0 timeout (record w { clock = w.clock + 300 }))

  pub IsQuiet-wait_sock : (path : String) (timeout : ℕ) → IsQuiet (wait_sock h path timeout)
  unfolding wait_sock
  IsQuiet-wait_sock path timeout = record { at = λ w. wait_from-quiet _ path w.clock timeout w }

  pub IsQuiet-nether_transform :
      (o : Os) (i k src dst : String) → IsQuiet (nether_transform h o i k src dst)
  unfolding nether_transform
  IsQuiet-nether_transform o i k src dst = record { at = λ w. refl }

pub ruleset vm_rules = (
  quiet_rules, IsQuiet-sleep, IsQuiet-write, IsQuiet-move, IsQuiet-cmd, IsQuiet-meta, IsQuiet-uconn,
  IsQuiet-wait_sock, IsQuiet-nether_transform,
)
