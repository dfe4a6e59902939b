-- ===== src/Clone/Wallclock.antt =====
-- scripts/wallclock_proof.py: the guest's wall clock stands still across a park, and is caught up.
use nether.Prelude.{
  ℕ, ◌/◌, String, ◌<>◌, Bool, true, false, not, ◌&&◌, Option, none, some, if◌then◌else◌,
}
use nether.Prelude.Int.{ℤ, pos, negsuc, leℤ, plus, minus}
use nether.Prelude.Action.{pure, ◌>>=◌, ◌>>◌}
use nether.Vm.{contains}
use nether.Lab.{
  Site, Script, made_folder, wrote, gets, fail_if, final, act, is_there, sleep, cmd, meta, start,
  wait_sock, uc, wait_or_raise, shut_down, verdict,
}
use nether.Serve.{Place}
use nether.Clone.{fresh_work, control_base, up_base, clean_up}

-- abs(d) <= 3
unfoldable pub near : ℤ → Bool
near d = leℤ (negsuc 2) d && leℤ d (pos 3)

-- The two failures of the check at boot, from the host's and the guest's seconds.
unfoldable pub boot_fails : ℤ → Option ℤ → Bool × Bool
unfolding near
boot_fails hb none = (true, false)
boot_fails hb (some gb) =
    if leℤ (pos 1_700_000_000) gb then (false, not (near (minus hb gb))) else (true, false)

-- gpre is None or behind < PARK_S - 3
unfoldable pub not_frozen : ℤ → Option ℤ → Bool
not_frozen real none = true
not_frozen real (some g) = not (leℤ (pos 9) (minus real g))

-- fork_up is None or base_up is None or fork_up < base_up - 1, in microseconds
unfoldable pub was_reset : Option ℤ → Option ℤ → Bool
was_reset (some fork) (some base) = not (leℤ base (plus fork 1_000_000))
was_reset _ _ = true

-- The two failures of the check after the catch-up.
unfoldable pub sync_fails : ℤ → Option ℤ → Option ℤ → Bool × Bool
unfolding near
sync_fails real none gpre = (true, false)
sync_fails real (some gpost) gpre =
    if near (minus real gpost)
    then (false, (elim gpre [ none ↦ true | some g ↦ not (leℤ (pos 9) (minus gpost g)) ]))
    else (true, false)

-- `number` is `int` of a text, and `float` a number of seconds in microseconds; none: ValueError.
module _ {X : Type 0} (L : Site X) (P : Place) (number float : String → Option ℤ) where
  open L use {join, strip}

  -- gepoch(s)
  unfoldable pub epoch : ℕ → Script X (Option ℤ)
  unfolding cmd
  epoch s = do v ← cmd L s "date -u +%s"; pure (number (strip v))

  -- guptime(s)
  unfoldable pub guest_uptime : ℕ → Script X (Option ℤ)
  unfolding cmd
  guest_uptime s = do v ← cmd L s "cut -d' ' -f1 /proc/uptime"; pure (float (strip v))

  -- int(time.time())
  abbrev now : Script X ℤ
  now = gets (λ w. pos (w.clock / 1_000_000))

  -- (A) and the park: the base's uptime.
  unfoldable pub park_base : ℕ × ℕ → Script X (Option ℤ)
  unfolding epoch boot_fails fail_if sleep guest_uptime meta shut_down wait_or_raise
  park_base b = do
    gb ← epoch b.1
    hb ← now
    fail_if (boot_fails hb gb).0 "guest wall clock not real at boot (epoch=%s, ~1970 means no RTC)"
    fail_if (boot_fails hb gb).1 "guest boot clock off from host by %ss"
    sleep L 3_000_000
    base_up ← guest_uptime b.1
    rep ← meta L b.1 "__snapshot__ base.snap"
    fail_if (not (contains "OK" rep)) "snapshot failed: %r"
    shut_down L (cmd L) b.1
    wait_or_raise L b.0
    sleep L 12_000_000
    pure base_up

  -- (B) and the catch-up, on the connection of the fork.
  unfoldable pub wake_fork : Option ℤ → ℕ → Script X (Unit {0})
  unfolding epoch guest_uptime not_frozen was_reset sync_fails fail_if cmd shut_down
  wake_fork base_up fs = do
    gpre ← epoch fs
    fork_up ← guest_uptime fs
    real_now ← now
    fail_if (not_frozen real_now gpre)
        "fork wall clock not frozen at park (only %ss behind real; expected ~%ss)"
    fail_if (was_reset fork_up base_up)
        "fork uptime reset (base=%.1f fork=%.1f); monotonic not continuous"
    cmd L fs "hwclock -s"
    gpost ← epoch fs
    real2 ← now
    fail_if (sync_fails real2 gpost gpre).0
        "after hwclock -s the guest wall clock is still %ss off real"
    fail_if (sync_fails real2 gpost gpre).1 "catch-up jump was only %ss (expected ~%ss parked)"
    shut_down L (cmd L) fs

  -- The fork, once its socket is there; else the status 1.
  unfoldable pub fork_step : Option ℤ → String → String → Script X (Option ℕ)
  unfolding act start wait_sock uc wake_fork
  fork_step base_up base fork = do
    act L (
        wrote (join fork "nether.conf")
          (("restore=1\nrestore_from=" <> join base "base.snap") <> "\ncontrol_socket=f.sock\n"))
    start L fork
    up ← wait_sock L (join fork "f.sock") 30_000_000 50_000
    (if not up
        then pure (some 1)
        else (do fs ← uc L (join fork "f.sock"); wake_fork base_up fs; pure none))

  -- The steps under `try`.
  unfoldable pub clock_body : String → String → Script X (Option ℕ)
  unfolding up_base park_base fork_step
  clock_body base fork = do
    b ← up_base L P base
    elim b [
      | none ↦ pure (some 1)
      | some ps ↦ do base_up ← park_base ps; fork_step base_up base fork
    ]

  -- main() of wallclock_proof.py
  unfoldable pub clock_main : Script X ℕ
  unfolding is_there fresh_work act control_base final clock_body clean_up verdict
  clock_main = do
    built ← is_there L P.bin
    (if not built then pure 1 else (do
      fresh_work L P
      act L (made_folder (join P.work "base"))
      act L (made_folder (join P.work "fork"))
      control_base L P (join P.work "base") (P.nb <> "/kernels")
      r ← final (clock_body (join P.work "base") (join P.work "fork")) (clean_up L P)
      verdict L r))
