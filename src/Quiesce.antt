-- ===== src/Quiesce.antt =====
-- scripts/snapshot_quiesce_proof.py: a base snapshot of a guest that is busy, idle, or allowed to be dirty.
-- What is printed is left out, but for the failures, which are all that the script ends with.
use nether.Prelude.{ℕ, String, ◌<>◌, not, List}
use nether.Prelude.Action.{pure, ◌>>=◌, ◌>>◌}
use nether.Vm.{contains}
use nether.Lab.{
  Site, Lab, Script, removed_tree, made_folder, linked, wrote, gets, fail_if, keep, final, act,
  after_act, launch, sleep, uc, cmd, meta, await_path, ready, stop_all,
}
use nether.Serve.{Place}

module _ {X : Type 0} (L : Site X) (P : Place) where
  open L use {join}

  -- boot(name, extra): the process and its connection
  boot : String → String → Script X (ℕ × ℕ)
  unfolding act launch await_path uc ready cmd
  boot name extra = do
    act L (made_folder (join P.work name))
    act L (linked (P.nb <> "/kernels") (join (join P.work name) "kernels"))
    act L (
        wrote (join (join P.work name) "nether.conf")
          ("control_socket=c.sock\nram_mb=512\ncpus=2\n" <> extra))
    p ← launch L (join P.work name)
    t0 ← gets (λ w. w.clock)
    await_path L (join (join P.work name) "c.sock") t0 40_000_000 100_000
    s ← uc L (join (join P.work name) "c.sock")
    ready L (cmd L) s
    pure (p, s)

  -- spin(s): the id of a busy process in the guest
  spin : ℕ → Script X String
  unfolding cmd
  spin s = do b ← cmd L s "yes >/dev/null 2>&1 & echo $!"; pure (L.strip b)

  -- The steps under `try`.
  unfoldable pub quiesce_body : Script X (Unit {0})
  unfolding boot keep spin sleep meta fail_if cmd
  quiesce_body = do
    b ← boot "v1" ""
    keep b.0
    pid ← spin b.1
    sleep L 700_000
    r1 ← meta L b.1 "__snapshot__ b1.snap"
    fail_if (contains "OK" r1) "default should FAIL-CLOSED on a busy guest, got OK"
    cmd L b.1 (("kill " <> pid) <> " 2>/dev/null; echo k")
    sleep L 900_000
    r2 ← meta L b.1 "__snapshot__ b2.snap"
    fail_if (not (contains "OK" r2)) "default should succeed on an idle guest, got %r"
    c ← boot "v2" "snapshot_allow_dirty=1\n"
    keep c.0
    spin c.1
    sleep L 700_000
    r3 ← meta L c.1 "__snapshot__ b3.snap"
    fail_if (not (contains "OK" r3)) "allow_dirty override should capture best-effort, got %r"

  quiesce_clean_up : Lab X → Lab X
  unfolding stop_all after_act
  quiesce_clean_up w = after_act L (removed_tree P.work) (stop_all L 500_000 w)

  -- The script: the failures that it prints. Its status is 0.
  unfoldable pub quiesce_main : Script X (List String)
  unfolding act final quiesce_body quiesce_clean_up
  quiesce_main = do
    act L (removed_tree P.work)
    act L (made_folder P.work)
    final quiesce_body quiesce_clean_up
    gets (λ w. w.fails)
