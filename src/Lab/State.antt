-- ===== src/Lab/State.antt =====
-- The state of a proof script, and its control flow: `try`, `finally`, and what it notes.
use nether.Prelude.{ℕ, String, Bool, true, false, Option, none, List, [], ◌∷◌, ◌++◌, if◌then◌else◌}
use nether.Prelude.Int.{ℤ}
use nether.Prelude.Outcome.{Outcome, returned, raised}
use nether.Prelude.Action.{Action, pure}
use nether.Os.{Bytes}
use nether.Wire.{Recv}
use nether.Lab.Reads.{Stop, exception, leaves, stuck}

-- The calls that a script makes. Processes and connections are numbered as they are made.
pub data Act : Type 0 where
  removed_tree made_folder bound awaited : String → Act
  linked wrote : String → String → Act
  launched : ℕ → String → Act
  connected : ℕ → String → Act
  sent : ℕ → String → Act
  closed slept waited terminated killed : ℕ → Act
  ran : List String → Act

abbrev pub Trace : Type 0
Trace = List Act

-- What is not in the scripts: the VMs, the file system, and functions of Python's library. A trace
-- lists the calls made, the latest first. `X` is the state of the script's own broker.
pub record Site (X : Type 0) : Type 0 where
  -- how long the latest call takes, what comes on its connection, and what the broker's threads do
  -- meanwhile
  pub takes : Trace → ℕ
  pub recvs : Trace → List Recv
  pub broker : Trace → X → X
  -- os.path.exists(p) and whether a socket accepts, at that time
  pub present : Trace → ℕ → String → Bool
  pub accepts : Trace → ℕ → String → Bool
  -- open(p).read(), and p.wait(timeout=...): the exit status, or that the time is over
  pub contents : Trace → String → Option String
  -- whether such a call, which OSError ends otherwise, succeeds at that time
  pub allows : Act → Trace → ℕ → Bool
  -- whether what comes on a connection goes on for ever
  pub floods : Trace → ℕ → Bool
  pub exit_code : Trace → Option ℤ
  pub join : String → String → String
  pub show : ℕ → String
  pub decode : Bytes → String
  pub strip : String → String
  pub split : String → List String
  pub to_int : Bytes → Option ℤ

-- A script's state: its lists `procs` and `fails`, and how many processes and connections it made.
-- A failure is noted by the format of its message.
pub record Lab (X : Type 0) : Type 0 where
  pub clock : ℕ
  pub trace : Trace
  pub made : ℕ
  pub conns : ℕ
  pub inbox : ℕ → List Recv
  pub procs : List ℕ
  pub fails : List String
  pub platform : X

abbrev pub Script : Type 0 → Type 0 → Type 0
Script X A = Action (Lab X) Stop A

-- The code never ends.
unfoldable pub is_stuck : {A : Type 0} → Outcome Stop A → Bool
is_stuck (raised stuck) = true
is_stuck _ = false

passed : Outcome Stop (Unit {0}) → Outcome Stop (Unit {0})
passed (raised (exception e)) = returned tt
passed r = r

caught : {A : Type 0} → A → Outcome Stop A → Outcome Stop A
caught a (raised (exception e)) = returned a
caught a r = r

at_exit : Outcome Stop (Option ℕ) → Outcome Stop (Option ℕ)
at_exit (raised leaves) = returned none
at_exit r = r

unfoldable pub is_empty : List String → Bool
is_empty [] = true
is_empty (m ∷ ms) = false

module _ {X : Type 0} where
  abbrev pub gets : {A : Type 0} → (Lab X → A) → Script X A
  gets f w = (returned (f w), w)

  -- fails.append(...)
  unfoldable pub fail : String → Script X (Unit {0})
  fail m w = (returned tt, record w { fails = w.fails ++ (m ∷ []) })

  -- if b: fails.append(...)
  unfoldable pub fail_if : Bool → String → Script X (Unit {0})
  unfolding fail
  fail_if b m = if b then fail m else pure tt

  -- procs.append(p)
  unfoldable pub keep : ℕ → Script X (Unit {0})
  keep p w = (returned tt, record w { procs = w.procs ++ (p ∷ []) })

  -- `try: m finally: cleanup`. Code that waits for ever does not come to its clean-up.
  unfoldable pub final : {A : Type 0} → Script X A → (Lab X → Lab X) → Script X A
  unfolding is_stuck
  final m cleanup w = let (r, w') = m w in (r, if is_stuck r then w' else cleanup w')

  -- try: m except Exception: pass
  unfoldable pub try_pass : Script X (Unit {0}) → Script X (Unit {0})
  unfolding passed
  try_pass m w = let (r, w') = m w in (passed r, w')

  -- `try: return m except Exception: ...`, where the handler gives `a`
  unfoldable pub try_or : {A : Type 0} → A → Script X A → Script X A
  unfolding caught
  try_or a m w = let (r, w') = m w in (caught a r, w')

  -- except SystemExit: pass
  unfoldable pub catch_exit : Script X (Option ℕ) → Script X (Option ℕ)
  unfolding at_exit
  catch_exit m w = let (r, w') = m w in (at_exit r, w')
