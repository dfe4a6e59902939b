-- ===== src/Clone/Vmgenid.antt =====
-- scripts/vmgenid_proof.py: forks of one base draw the same random bytes with the reseed gated off, and
-- others with it on.
use nether.Prelude.{
  ℕ, String, ◌<>◌, str_eq, Bool, true, false, not, ◌&&◌, ◌||◌, Option, none, some, if◌then◌else◌,
}
use nether.Prelude.Action.{pure, ◌>>=◌, ◌>>◌}
use nether.Vm.{contains}
use nether.Lab.{
  Site, Script, made_folder, wrote, fail_if, keep, final, act, is_there, read_text, cmd, launch,
  wait_sock, uc, wait_or_raise, shut_down, verdict,
}
use nether.Serve.{Place}
use nether.Clone.{fresh_work, control_base, up_base, clean_up}

-- What fork_read returns but for the process: the first read, the count of interrupts and the log.
pub record Reading : Type 0 where
  pub drawn : Option String
  pub irq : Option String
  pub log : String

-- v1 and v1 == v2
unfoldable pub identical : Option String → Option String → Bool
identical (some a) (some b) = not (str_eq a "") && str_eq a b
identical _ _ = false

-- f1 and f2 and f1 != f2
unfoldable pub diverged : Option String → Option String → Bool
diverged (some a) (some b) = not (str_eq a "") && (not (str_eq b "") && not (str_eq a b))
diverged _ _ = false

-- a == b, for texts or None
unfoldable pub same : Option String → Option String → Bool
same (some a) (some b) = str_eq a b
same none none = true
same _ _ = false

abbrev pub reseed_line : String
reseed_line = "vmgenid generation change"

module _ {X : Type 0} (L : Site X) (P : Place) where
  open L use {join, strip}

  -- The reads of a fork that came up.
  read_fork : String → Script X Reading
  unfolding uc cmd shut_down read_text
  read_fork d = do
    vs ← uc L (join d "v.sock")
    r ← cmd L vs "head -c16 /dev/urandom | od -An -tx1 | tr -d ' \\n'"
    irq ← cmd L vs "awk '/vmgenid/{print $2}' /proc/interrupts"
    shut_down L (cmd L) vs
    log ← read_text L (join d "run.log")
    pure (record { drawn = some (strip r); irq = some (strip irq); log = log })

  -- fork_read(base_snap, esdir, tag, reseed): the reading, and the process, which the caller appends
  -- to procs.
  unfoldable pub fork_read : String → String → Bool → Script X (Reading × ℕ)
  unfolding act launch wait_sock read_fork
  fork_read snap tag reseed = do
    act L (made_folder (join P.work tag))
    act L (
        wrote (join (join P.work tag) "nether.conf") (
          (("restore=1\nrestore_from=" <> snap) <> "\ncontrol_socket=v.sock\n")
          <> (if reseed then "" else "fork_reseed=0\n")))
    p ← launch L (join P.work tag)
    up ← wait_sock L (join (join P.work tag) "v.sock") 30_000_000 50_000
    (if not up
        then pure (record { drawn = none; irq = none; log = "" }, p)
        else (do r ← read_fork (join P.work tag); pure (r, p)))

  -- f = fork_read(...); procs.append(p)
  kept_read : String → String → Bool → Script X Reading
  unfolding fork_read keep
  kept_read snap tag reseed = do r ← fork_read snap tag reseed; keep r.1; pure r.0

  -- The base: bound to the driver, snapshotted and shut down.
  unfoldable pub bake : ℕ × ℕ → Script X (Unit {0})
  unfolding cmd fail_if wait_or_raise
  bake b = do
    bound ←
        cmd L b.1
          "ls /sys/bus/platform/drivers/vmgenid/ 2>/dev/null | grep '\\.vmgenid' || echo none"
    fail_if (not (contains ".vmgenid" (strip bound))) "vmgenid driver did not bind in the base"
    rep ← cmd L b.1 "__snapshot__ base.snap"
    fail_if (not (contains "OK" rep)) "base bake failed: %r"
    cmd L b.1 "__shutdown__"
    wait_or_raise L b.0
    pure tt

  -- (1) to (4), with the base's snapshot.
  unfoldable pub compare_forks : String → Script X (Unit {0})
  unfolding kept_read identical diverged same fail_if
  compare_forks snap = do
    v1 ← kept_read snap "vuln-a" false
    v2 ← kept_read snap "vuln-b" false
    fail_if (not (identical v1.drawn v2.drawn))
        "expected identical streams with fork_reseed=0, got a=%r b=%r"
    f1 ← kept_read snap "fix-a" true
    f2 ← kept_read snap "fix-b" true
    fail_if (not (diverged f1.drawn f2.drawn))
        "expected divergent streams with vmgenid, got a=%r b=%r"
    fail_if (same f1.drawn v1.drawn || same f2.drawn v1.drawn)
        "a reseeded fork matched the un-reseeded stream (reseed had no effect)"
    fail_if (not (same f1.irq (some "1") && same f2.irq (some "1")))
        "vmgenid IRQ did not fire exactly once per fork (a=%s b=%s)"
    fail_if (not (contains reseed_line f1.log && contains reseed_line f2.log))
        "fork log missing the vmgenid reseed line"
    fail_if (contains "via agent" f1.log || contains "via agent" f2.log)
        "an agent-mediated reseed still ran (expected pure vmgenid)"

  -- The steps under `try`.
  unfoldable pub genid_body : String → Script X (Option ℕ)
  unfolding up_base bake compare_forks
  genid_body base = do
    b ← up_base L P base
    elim b [
      | none ↦ pure (some 1)
      | some ps ↦ do bake ps; compare_forks (join base "base.snap"); pure none
    ]

  -- main() of vmgenid_proof.py
  unfoldable pub genid_main : Script X ℕ
  unfolding is_there fresh_work act control_base final genid_body clean_up verdict
  genid_main = do
    built ← is_there L P.bin
    (if not built then pure 1 else (do
      fresh_work L P
      act L (made_folder (join P.work "base"))
      control_base L P (join P.work "base") (P.nb <> "/kernels")
      r ← final (genid_body (join P.work "base")) (clean_up L P)
      verdict L r))
