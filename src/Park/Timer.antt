-- ===== src/Park/Timer.antt =====
-- scripts/park_timer_proof.py: the guest's clock goes on across a park, and an armed timer keeps its
-- remaining time.
use text.Mathlib.Text.{starts_with}
use nether.Prelude.{
  ℕ, zero, suc, ◌+◌, ◌-◌, ◌/◌, String, ◌<>◌, Bool, true, not, Option, none, some, List, [], ◌∷◌,
  ◌||◌, ltb, leb, if◌then◌else◌,
}
use nether.Prelude.Int.{ℤ, pos, negsuc, leℤ, plus}
use nether.Prelude.Outcome.{returned}
use nether.Prelude.Action.{pure, raise, ◌>>=◌, ◌>>◌}
use nether.Errors.{index_error, value_error}
use nether.Vm.{contains}
use nether.Lab.Reads.{exception}
use nether.Lab.{
  Site, Script, removed_tree, made_folder, gets, fail_if, keep, final, catch_exit, act, is_there,
  read_text, sleep, cmd, launch, start, until, ready, shut_down, stop_all, verdict,
}
use nether.Serve.{Place}
use nether.Park.{egress_base, reach, fork_conf, left_itself}

-- Uptimes are in microseconds, and -1 second is an uptime that was not read.
abbrev pub unread : ℤ
unread = negsuc 999_999

-- up_wake < up_pre - 0.3
unfoldable pub rewound : ℤ → ℤ → Bool
rewound before now = not (leℤ before (plus now 300_000))

-- up_wake > up_pre + 4.0
unfoldable pub jumped : ℤ → ℤ → Bool
jumped before now = not (leℤ now (plus before 4_000_000))

-- delta < max(0.3, remaining - 1.5), where remaining = 3.0 - lag
unfoldable pub too_early : ℕ → ℕ → Bool
too_early delta lag = ltb delta 300_000 || ltb (delta + 1_500_000 + lag) 3_000_000

-- delta > remaining + 1.5
unfoldable pub too_late : ℕ → ℕ → Bool
too_late delta lag = ltb 4_500_000 (delta + lag)

module _ {X : Type 0} (L : Site X) (P : Place) (float : String → Option ℤ) where
  open L use {join, split, strip}

  -- float(words[0])
  first_number : List String → Script X ℤ
  first_number [] = raise (exception index_error)
  first_number (v ∷ vs) = elim (float v) [ none ↦ raise (exception value_error) | some t ↦ pure t ]

  uptime_of : List String → Script X ℤ
  unfolding first_number
  uptime_of [] = pure unread
  uptime_of (v ∷ vs) = first_number (v ∷ vs)

  -- uptime(s)
  unfoldable pub uptime : ℕ → Script X ℤ
  unfolding cmd uptime_of
  uptime s = do out ← cmd L s "cat /proc/uptime"; uptime_of (split (strip out))

  -- wake(dirpath, snap_path, sockname, esock): the process, which the caller appends to procs
  unfoldable pub wake : String → String → String → String → Script X (ℕ × ℕ)
  unfolding act fork_conf launch reach
  wake dir snap sock esock = do
    act L (made_folder dir)
    fork_conf L dir snap sock esock
    t0 ← gets (λ w. w.clock)
    p ← launch L dir
    s ← reach L (join dir sock) t0 30_000_000
    pure (p, s)

  -- while up < 15.0 and time.time() < deadline: time.sleep(0.5); up = uptime(s). The fuel bounds the
  -- rounds.
  age : ℕ → ℕ → ℕ → ℤ → Script X ℤ
  unfolding uptime sleep
  age zero deadline s up w = (returned up, w)
  age (suc fuel) deadline s up w =
      let older = (do sleep L 500_000; u ← uptime s; age fuel deadline s u) in
      if leℤ (pos 15_000_000) up || leb deadline w.clock then (returned up, w) else older w

  -- The same for the time since `t0`.
  age_for : ℕ → ℕ → ℕ → Script X ℤ
  unfolding uptime age
  age_for timeout t0 s = do up ← uptime s; age (timeout / 500_000 + 2) (t0 + timeout) s up

  abbrev pub probe : String
  probe = "test -f /tmp/t3 && echo T3-PRESENT || echo T3-ABSENT"

  -- Steps 1 and 2: the base is 15 seconds old, its timer is armed, and it is parked: the uptime
  -- before the park, and the time between.
  unfoldable pub park_base : String → Script X (ℤ × ℕ)
  unfolding start reach ready age_for fail_if cmd sleep uptime left_itself
  park_base base = do
    p ← start L base
    t0 ← gets (λ w. w.clock)
    s ← reach L (join base "c.sock") t0 40_000_000
    ready L (cmd L) s
    up ← age_for 60_000_000 t0 s
    fail_if (not (leℤ (pos 15_000_000) up)) "guest never reached 15s uptime (%.2f)"
    cmd L s "rm -f /tmp/t3; (sleep 3 && touch /tmp/t3) >/dev/null 2>&1 &"
    t_armed ← gets (λ w. w.clock)
    sleep L 1_000_000
    up_pre ← uptime s
    t_sent ← gets (λ w. w.clock)
    rep ← cmd L s "__park__ park.snap"
    fail_if (not (starts_with rep "OK parked")) "__park__ failed: %r"
    left_itself L p "park exit code %s != 0" "nether did not exit after __park__"
    pure (up_pre, t_sent - t_armed)

  -- Step 5: the timer fires with its remaining time.
  await_timer : ℕ → ℕ → ℕ → Script X (Unit {0})
  unfolding until cmd fail_if too_early too_late
  await_timer s t_first lag = do
    seen ← until L t_first 15_000_000 300 (do
      r ← cmd L s probe
      t ← gets (λ w. w.clock)
      pure (if contains "T3-PRESENT" r then some t else none))
    elim seen [
      | none ↦ fail_if true "armed timer never fired after wake"
      | some t ↦ do
        fail_if (too_early (t - t_first) lag)
            "timer fired too early after wake (%.2fs; remaining was ~%.2fs)"
        fail_if (too_late (t - t_first) lag)
            "timer fired late after wake (%.2fs; remaining was ~%.2fs - the base-age/park-age lag)"
    ]

  -- The first answer of a fork, with its uptime and whether the timer has fired.
  first_answer : ℕ → Script X (ℤ × Bool)
  unfolding cmd first_number
  first_answer s = do
    r ← cmd L s ("cat /proc/uptime; " <> probe)
    u ← first_number (split r)
    pure (u, contains "T3-PRESENT" r)

  -- Steps 3 to 5: the wake, the clock and the timer.
  unfoldable pub wake_first : ℤ × ℕ → String → String → String → Script X (ℕ × ℕ)
  unfolding sleep wake keep first_answer fail_if rewound jumped await_timer read_text
  wake_first before fork snap esock = do
    sleep L 10_000_000
    f ← wake fork snap "f.sock" esock
    keep f.0
    first ← first_answer f.1
    t_first ← gets (λ w. w.clock)
    fail_if (rewound before.0 first.0) "uptime REWOUND across the park (%.2f -> %.2f)"
    fail_if (jumped before.0 first.0)
        "uptime jumped by the parked wall time (%.2f -> %.2f; continuity broken)"
    fail_if first.1 "armed timer fired during the park or instantly at wake (t3 already present)"
    await_timer f.1 t_first before.1
    flog ← read_text L (join fork "fork.log")
    fail_if (not (contains "vtimer continuity" flog))
        "fork log missing the 'vtimer continuity' restore line"
    pure f

  -- Step 6: the fork is parked and woken in its turn.
  unfoldable pub wake_second : ℕ × ℕ → String → String → String → Script X (Unit {0})
  unfolding uptime cmd fail_if left_itself sleep wake keep first_answer rewound jumped shut_down
  wake_second f fork fork2 esock = do
    up_pre ← uptime f.1
    rep ← cmd L f.1 "__park__ park2.snap"
    fail_if (not (starts_with rep "OK parked")) "fork __park__ failed: %r"
    left_itself L f.0 "fork park exit code %s != 0" "fork did not exit after __park__"
    sleep L 4_000_000
    g ← wake fork2 (join fork "park2.snap") "f2.sock" esock
    keep g.0
    second ← first_answer g.1
    fail_if (rewound up_pre second.0) "gen-2 uptime rewound (%.2f -> %.2f)"
    fail_if (jumped up_pre second.0) "gen-2 uptime jumped by the parked wall time (%.2f -> %.2f)"
    fail_if (not second.1) "gen-1 state (/tmp/t3) lost across the re-park"
    shut_down L (cmd L) g.1

  -- The steps under `try`.
  unfoldable pub timer_body : String → String → Script X (Option ℕ)
  unfolding park_base wake_first wake_second
  timer_body base esock = do
    before ← park_base base
    f ← wake_first before (join P.work "f1") (join base "park.snap") esock
    wake_second f (join P.work "f1") (join P.work "f2") esock
    pure none

  -- main() of park_timer_proof.py
  unfoldable pub timer_main : Script X ℕ
  unfolding is_there act egress_base final catch_exit timer_body stop_all verdict
  timer_main = do
    built ← is_there L P.bin
    (if not built then pure 1 else (do
      act L (removed_tree P.work)
      act L (made_folder (join P.work "b"))
      egress_base L P (join P.work "b") (join P.work "e.sock")
      r ←
          final (catch_exit (timer_body (join P.work "b") (join P.work "e.sock")))
            (stop_all L 400_000)
      verdict L r))
