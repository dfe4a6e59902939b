-- ===== src/Fork.antt =====
-- scripts/bake.py: do_fork, which restores a VM from a base and waits until it answers. Output to
-- the terminal is left out.
pub mod Status
use nether.Prelude.{
  ℕ, zero, suc, ◌+◌, ◌/◌, String, ◌<>◌, str_eq, Bool, true, false, not, ◌&&◌, leb, if◌then◌else◌,
}
use nether.Prelude.Outcome.{Outcome, returned, raised}
use nether.Prelude.Action.{pure, lift, ◌>>=◌, ◌>>◌}
use nether.Os.{exists}
use nether.Errors.{Exc, exit, base_missing}
use nether.Manifest.{read_manifest, truthy, nether_build_id}
use nether.Gc.{foreign_build}
use nether.Forkable.{ensure_forkable}
use nether.Vm.{
  Host, Run, removed_tree, made_folder, linked, launch, contains, note, gets, on_files, write, cmd,
  uconn,
}
use nether.Bake.{Env}

-- The check of the manifest, which only warns, but raises where it has no key.
check_build : Env → String → Run (Unit {0})
check_build e snap w =
    if truthy (read_manifest e.os w.files snap)
    then (do
      build ← lift (nether_build_id e.hash e.bin w.files)
      lift (foreign_build build (read_manifest e.os w.files snap))
      pure tt)
        w
    else (returned tt, w)

module _ (h : Host) (path : String) where
  -- `while not os.path.exists(fsk) and time.time() - t0 < 30`, a round each 300 microseconds. The
  -- fuel bounds the rounds.
  unfoldable pub await_socket : ℕ → ℕ → Run (Unit {0})
  await_socket zero deadline w = (returned tt, w)
  await_socket (suc fuel) deadline w =
      let later = await_socket fuel deadline (record w { clock = w.clock + 300 }) in
      if h.socket_exists path w.clock
      then (returned tt, w)
      else if leb deadline w.clock
      then (returned tt, w)
      else later

  -- s = uconn(fsk, 10); r = cmd(s, "__info__", 10), and `r and "ERR" not in r`
  attempt : Run Bool
  attempt = do
    uconn h path
    r ← cmd h "__info__"
    pure (not (str_eq r "") && not (contains "ERR" r))

  -- `except Exception: pass` of an attempt, which raises no SystemExit.
  unfoldable pub tried : Outcome Exc Bool → Bool
  tried (returned ok) = ok
  tried (raised e) = false

  -- `while time.time() - t0 < 30`: whether the VM answered. The fuel bounds the rounds.
  unfoldable pub drive : ℕ → ℕ → Run Bool
  unfolding attempt tried
  drive zero deadline w = (returned false, w)
  drive (suc fuel) deadline w =
      let (r, w') = attempt w in
      let later = drive fuel deadline (record w' { clock = w'.clock + 300 }) in
      if leb deadline w.clock
      then (returned false, w)
      else if tried r
      then (returned true, w')
      else later

module _ (e : Env) where
  open e use {os, host}

  -- The VM, and the wait until it answers: the status. The timeout is 30 seconds, in microseconds.
  unfoldable pub start_vm : ℕ → String → Run ℕ
  unfolding launch await_socket drive
  start_vm timeout work = do
    t0 ← gets (λ w. w.clock)
    launch host work
    await_socket host (os.join work "f.sock") (timeout / 300 + 2) (t0 + timeout)
    answers ← drive host (os.join work "f.sock") (timeout / 300 + 2) (t0 + timeout)
    pure (if answers then 0 else 1)

  -- From the forkable base on: the work folder and the VM. `kernels` is NB/kernels.
  unfoldable pub restore_vm : String → String → String → Run ℕ
  unfolding start_vm
  restore_vm kernels work forkable = do
    note (removed_tree work)
    on_files (λ fs. (returned tt, host.remove_tree work fs))
    note (made_folder work)
    there ← gets (λ w. exists w.files kernels)
    if there then note (linked kernels (os.join work "kernels")) else pure tt
    write (os.join work "nether.conf") (
        host.encode (
          ("restore=1\nrestore_from=" <> forkable)
          <> "\ncontrol_socket=f.sock\ndata_socket=f.data\n"))
    start_vm 30_000_000 work

  -- do_fork(snap, name, work): the status.
  unfoldable pub do_fork : String → String → String → Run ℕ
  unfolding check_build restore_vm
  do_fork kernels work snap w =
      if not (exists w.files snap)
      then (raised (exit base_missing), w)
      else (do
        check_build e snap
        forkable ← ensure_forkable os host (os.abspath snap)
        restore_vm kernels work forkable)
          w
