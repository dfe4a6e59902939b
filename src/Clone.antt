-- ===== src/Clone.antt =====
-- scripts/wallclock_proof.py, vmgenid_proof.py and fork_entropy_proof.py: what a fork has in common with
-- its base, and what it must not. What is printed and measured only to be printed is left out.
pub mod Wallclock
pub mod Vmgenid
pub mod Entropy
use nether.Prelude.{ℕ, String, not, Option, none, some, if◌then◌else◌}
use nether.Prelude.Action.{pure, ◌>>=◌, ◌>>◌}
use nether.Lab.{
  Site, Lab, Script, removed_tree, made_folder, linked, wrote, act, after_act, start, wait_sock, uc,
  cmd, ready, stop_all,
}
use nether.Serve.{Place}

module _ {X : Type 0} (L : Site X) (P : Place) where
  open L use {join}

  -- A fresh work folder.
  unfoldable pub fresh_work : Script X (Unit {0})
  unfolding act
  fresh_work = do act L (removed_tree P.work); act L (made_folder P.work)

  -- The base's folder and its conf.
  unfoldable pub control_base : String → String → Script X (Unit {0})
  unfolding act
  control_base base kernels = do
    act L (linked kernels (join base "kernels"))
    act L (wrote (join base "nether.conf") "control_socket=c.sock\nram_mb=512\ncpus=2\n")

  -- The base, launched: the process and its connection, or none if its socket or its agent never came
  -- up.
  unfoldable pub up_base : String → Script X (Option (ℕ × ℕ))
  unfolding start wait_sock uc ready
  up_base base = do
    p ← start L base
    up ← wait_sock L (join base "c.sock") 40_000_000 50_000
    (if not up then pure none else (do
      s ← uc L (join base "c.sock")
      ok ← ready L (cmd L) s
      pure (if ok then some (p, s) else none)))

  -- finally: the processes are stopped, and the work folder is removed
  unfoldable pub clean_up : Lab X → Lab X
  unfolding stop_all after_act
  clean_up w = after_act L (removed_tree P.work) (stop_all L 400_000 w)
