-- ===== src/Proto.antt =====
-- scripts/proto_v2.py: the proof of the control protocol's second version. The runs of the compiler and
-- of nether-ctl are parameters. What is printed is left out.
use nether.Prelude.{
  ℕ, String, ◌<>◌, str_eq, Bool, false, not, ◌||◌, Option, none, some, List, [], ◌∷◌, ◌==◌,
  if◌then◌else◌,
}
use nether.Prelude.Int.{ℤ, pos, negsuc}
use nether.Prelude.Outcome.{Outcome}
use nether.Prelude.Action.{pure, raise, ◌>>=◌, ◌>>◌}
use nether.Os.{Bytes}
use nether.Errors.{timeout_expired}
use text.Mathlib.Text.{starts_with}
use nether.Vm.{contains}
use nether.Wire.{Recv, read_framed}
use nether.Wire.Settle.{Timed, Settled, read_v1_settle, untimed}
use nether.Lab.Reads.{Stop, exception}
use nether.Lab.Reads.Framed.{as_stop}
use nether.Lab.{
  Site, Script, Trace, removed_tree, made_folder, linked, wrote, closed, ran, gets, fail_if, final,
  act, launch, sleep, send, receive, uc, await_path, attempts, verdict,
}
use nether.Serve.{Place}
use nether.Plane.{stop_one}

-- ex != n, where ex may be None
exit_is : ℤ → Option ℤ → Bool
exit_is n none = false
exit_is (pos n) (some (pos m)) = n == m
exit_is (negsuc n) (some (negsuc m)) = n == m
exit_is n (some m) = false

abbrev minus_one : ℤ
minus_one = negsuc 0

-- What the readers give, as outcomes of a script.
unfoldable pub read_v2 :
    (Bytes → Option ℤ) → List Recv → Outcome Stop (Bytes × Option ℤ) × List Recv
unfolding read_framed
read_v2 to_int evs = let (r, evs') = read_framed to_int evs in (as_stop r, evs')

-- `timing` says how long after one another the pieces are ready.
unfoldable pub read_v1 : (List Recv → Timed) → List Recv → Outcome Stop Settled × List Recv
unfolding read_v1_settle untimed
read_v1 timing evs =
    let (r, rest) = read_v1_settle 500_000 12_000_000 (timing evs) in (as_stop r, untimed rest)

abbrev delayed : String
delayed = "printf 'OK first\\n'; sleep 1; printf 'second\\nthird\\n'; exit 3"

-- `lines` is split(b"\n"), `second` the second part of split(b"="), `compiled` whether cc succeeds, and
-- `ctl_run` what nether-ctl exits with and prints, none where its time is over.
module _ {X : Type 0} (L : Site X) (P : Place) (lines : String → List String)
    (second : String → String) (compiled : Trace → Bool) (ctl_run : Trace → Option (ℤ × String))
    (timing : List Recv → Timed) where
  open L use {join}

  -- cmd_line(s, line); read_framed(s)
  exchange : ℕ → String → Script X (String × Option ℤ)
  unfolding send receive read_v2
  exchange s line = do send L s line; r ← receive L s (read_v2 L.to_int); pure (L.decode r.0, r.1)

  -- pv
  version_in : List String → String
  version_in [] = "?"
  version_in (l ∷ ls) =
      let later = version_in ls in if starts_with l "proto_version=" then second l else later

  -- (1)
  greets : ℕ → Script X (Unit {0})
  unfolding exchange version_in fail_if exit_is
  greets s = do
    r ← exchange s "__info__"
    fail_if (not (str_eq (version_in (lines r.0)) "2") || not (exit_is (pos 0) r.1))
        "__info__ not v2/framed (pv=%s exit=%s)"

  -- (2) and (3)
  errors_framed : ℕ → Script X (Unit {0})
  unfolding exchange fail_if exit_is
  errors_framed s = do
    r ← exchange s "ls \u{1e} forged"
    fail_if (not (exit_is minus_one r.1) || not (contains "control byte" r.0))
        "control-byte guard not framed exit -1"
    q ← exchange s "__nope__"
    fail_if (not (exit_is minus_one q.1) || not (contains "unknown command" q.0))
        "unknown verb not framed exit -1"

  -- (4a)
  reads_delayed : ℕ → Script X (Unit {0})
  unfolding exchange fail_if exit_is act sleep
  reads_delayed s = do
    r ← exchange s delayed
    fail_if (not (str_eq r.0 "OK first\nsecond\nthird\n") || not (exit_is (pos 3) r.1))
        "v2 reader did not get the full delayed reply (body=%r exit=%s)"
    act L (closed s)
    sleep L 300_000

  -- (4b), whose result is printed only
  reads_old : String → Script X (Unit {0})
  unfolding uc exchange send receive read_v1 read_v2 sleep act
  reads_old sk = do
    s ← uc L sk
    exchange s "__info__"
    send L s delayed
    receive L s (read_v1 timing)
    receive L s (read_v2 L.to_int)
    sleep L 300_000
    act L (closed s)
    sleep L 300_000

  -- ctl(*args): the status and what was printed
  ctl : List String → Script X (ℤ × String)
  unfolding act
  ctl args = do
    act L (ran args)
    r ← gets (λ w. ctl_run w.trace)
    elim r [ none ↦ raise (exception timeout_expired) | some (rc, out) ↦ pure (rc, L.strip out) ]

  -- (5)
  client_speaks : Script X (Unit {0})
  unfolding ctl fail_if exit_is
  client_speaks = do
    a ← ctl ("__info__" ∷ [])
    fail_if (not (contains "proto_version=2" a.1)) "nether-ctl handshake not v2"
    b ← ctl ("echo" ∷ "hi" ∷ [])
    fail_if (not (exit_is (pos 0) (some b.0)) || not (str_eq b.1 "hi")) "nether-ctl echo failed"
    c ← ctl ("exit" ∷ "7" ∷ [])
    fail_if (not (exit_is (pos 7) (some c.0))) "nether-ctl did not propagate guest exit 7 (rc=%d)"
    d ← ctl ("__nope__" ∷ [])
    fail_if (not (exit_is (pos 1) (some d.0))) "nether-ctl control error not rc 1 (rc=%d)"
    ctl ("__shutdown__" ∷ [])
    pure tt

  -- The steps under `try`.
  proto_body : Script X (Unit {0})
  unfolding await_path uc greets attempts exchange errors_framed reads_delayed reads_old
      client_speaks
  proto_body = do
    t0 ← gets (λ w. w.clock)
    await_path L (join P.work "c.sock") t0 40_000_000 100_000
    s ← uc L (join P.work "c.sock")
    greets s
    attempts L 120 500_000 (do r ← exchange s "echo ready"; pure (contains "ready" r.0))
    errors_framed s
    reads_delayed s
    reads_old (join P.work "c.sock")
    client_speaks

  -- main()
  unfoldable pub proto_main : Script X ℕ
  unfolding act launch final proto_body stop_one verdict
  proto_main = do
    act L (removed_tree P.work)
    act L (made_folder P.work)
    act L (ran ("cc" ∷ "-O2" ∷ (P.nb <> "/tools/nether-ctl.c") ∷ "-o" ∷ "/tmp/nether-ctl" ∷ []))
    ok ← gets (λ w. compiled w.trace)
    (if not ok then pure 1 else (do
      act L (linked (P.nb <> "/kernels") (join P.work "kernels"))
      act L (wrote (join P.work "nether.conf") "control_socket=c.sock\nram_mb=512\ncpus=1\n")
      p ← launch L P.work
      final proto_body (stop_one L P.work p)
      verdict L none))
