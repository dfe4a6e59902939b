-- ===== src/Serve/Pool.antt =====
-- scripts/pool_serve.py: a pool of warm forks of one base.
pub mod Stops
use nether.Prelude.{
  ℕ, zero, suc, ◌+◌, String, ◌<>◌, str_eq, not, ◌||◌, Option, none, some, List, [], ◌∷◌, ◌==◌,
  if◌then◌else◌,
}
use nether.Prelude.Action.{pure, raise, ◌>>=◌, ◌>>◌}
use nether.Errors.{index_error}
use nether.Vm.{contains}
use nether.Lab.Reads.{exception}
use nether.Lab.{
  Site, Script, removed_tree, made_folder, wrote, closed, gets, fail_if, keep, final, try_or,
  try_pass, act, perform, is_there, launch, start, uc, cmd_raw, meta, cat, hit, await_path, until,
  ready, stop_all, verdict,
}
use nether.Serve.{Place, serves, base_folder, wait_up, worker}

-- SRV, the tenant's server: one line of shell.
abbrev pub Line : Type 0
Line = String

module _ {X : Type 0} (L : Site X) (P : Place) (srv : Line) where
  open L use {join, show}

  unfoldable vm_conf : String → String
  vm_conf snap =
      ("restore=1\nrestore_from=" <> snap)
      <> "\ncontrol_socket=c.sock\ndata_socket=d.sock\napp_port=8080\nram_mb=512\n"

  -- The folder, the process and the time of a fork.
  abbrev pub Vm : Type 0
  Vm = String × (ℕ × ℕ)

  unfoldable pub fork_vm : ℕ → String → Script X Vm
  unfolding launch perform vm_conf
  fork_vm idx snap = do
    perform L (made_folder (join P.work ("vm" <> show idx)))
    perform L (wrote (join (join P.work ("vm" <> show idx)) "nether.conf") (vm_conf snap))
    t0 ← gets (λ w. w.clock)
    p ← launch L (join P.work ("vm" <> show idx))
    pure (join P.work ("vm" <> show idx), (p, t0))

  -- [fork_vm(i, snap) for i in range(idx, idx + n)]: where a call raises, the forks that are launched
  -- by then are lost.
  unfoldable pub fork_all : ℕ → ℕ → String → Script X (List Vm)
  unfolding fork_vm
  fork_all zero idx snap = pure []
  fork_all (suc n) idx snap = do v ← fork_vm idx snap; vs ← fork_all n (idx + 1) snap; pure (v ∷ vs)

  -- procs += [p for (_, p, _) in forks]
  unfoldable pub keep_all : List Vm → Script X (Unit {0})
  unfolding keep
  keep_all [] = pure tt
  keep_all (v ∷ vs) = do keep v.1.0; keep_all vs

  -- A round of wait_serving: the answer of the data socket, if it is there and answers.
  serving_round : String → Script X (Option String)
  unfolding is_there try_or hit
  serving_round ds = do
    there ← is_there L ds
    (if there
        then try_or none (do r ← hit L ds; pure (if str_eq r "" then none else some r))
        else pure none)

  -- wait_serving(d, t0): the answer, or None once 40 seconds have passed.
  unfoldable pub wait_serving : String → ℕ → Script X (Option String)
  unfolding until serving_round
  wait_serving d t0 = until L t0 40_000_000 300 (serving_round (join d "d.sock"))

  -- The first serve of each fork.
  unfoldable pub warm_all : String → List Vm → Script X (Unit {0})
  unfolding wait_serving fail_if
  warm_all iid [] = pure tt
  warm_all iid (v ∷ vs) = do
    r ← wait_serving v.0 v.1.1
    fail_if (not (serves L iid r)) "pool VM %d never served the warm base server"
    warm_all iid vs

  -- info(sock_path)
  unfoldable pub info : String → Script X String
  unfolding uc cmd_raw act
  info path = do s ← uc L path; r ← cmd_raw L s "__info__"; act L (closed s); pure r

  -- dp_on: the forks that advertise data_plane=on
  unfoldable pub count_ready : List Vm → Script X ℕ
  unfolding info
  count_ready [] = pure 0
  count_ready (v ∷ vs) = do
    r ← info (join v.0 "c.sock")
    n ← count_ready vs
    pure (if contains "data_plane=on" r then n + 1 else n)

  -- served: the forks whose worker was answered
  unfoldable pub count_served : String → List Vm → Script X ℕ
  unfolding worker
  count_served iid [] = pure 0
  count_served iid (v ∷ vs) = do
    r ← worker L 2 iid (join v.0 "d.sock")
    n ← count_served iid vs
    pure (if serves L iid r then n + 1 else n)

  -- t = time.time(); r = hit(os.path.join(warmed[0][0], "d.sock"))
  checkout : List Vm → Script X (Unit {0})
  unfolding hit
  checkout [] = raise (exception index_error)
  checkout (v ∷ vs) = do hit L (join v.0 "d.sock"); pure tt

  -- fork_vm, procs.append and wait_serving of one more fork
  unfoldable pub fork_more : ℕ → String → String → String → Script X (Unit {0})
  unfolding fork_vm keep wait_serving fail_if
  fork_more idx snap iid failure = do
    v ← fork_vm idx snap
    keep v.1.0
    r ← wait_serving v.0 v.1.1
    fail_if (not (serves L iid r)) failure

  -- The base: its control connection, the server's id, and the path of the snapshot.
  unfoldable pub bake : String → Script X (ℕ × (String × String))
  unfolding start await_path uc cmd_raw ready wait_up cat meta fail_if
  bake base = do
    start L base
    t0 ← gets (λ w. w.clock)
    await_path L (join base "base.sock") t0 40_000_000 300
    s ← uc L (join base "base.sock")
    cmd_raw L s "__info__"
    ready L (cmd_raw L) s
    cmd_raw L s srv
    up ← wait_up L s
    iid ← cat L (cmd_raw L) s "/tmp/iid"
    rep ← meta L s "__snapshot__ base.snap"
    fail_if (not (contains "OK" rep) || not up) "base bake failed"
    pure (s, (iid, join base "base.snap"))

  -- The pool in use: the first serves, the checkout, a cold fork, all at once, and the refill.
  unfoldable pub use_pool : ℕ → ℕ → String → String → List Vm → Script X (Unit {0})
  unfolding warm_all count_ready checkout fork_more count_served try_pass meta fail_if
  use_pool n s iid snap forks = do
    warm_all iid forks
    dp_on ← count_ready forks
    fail_if (not (dp_on == n)) "only %d/%d forks advertise data_plane=on"
    checkout forks
    fork_more n snap iid "cold on-demand fork did not serve"
    served ← count_served iid forks
    fail_if (not (served == n)) "concurrency: only %d/%d pool VMs served"
    fork_more (n + 1) snap iid "refill fork did not serve"
    try_pass (do meta L s "__shutdown__"; pure tt)

  -- The steps under `try`, for a pool of `n`.
  unfoldable pub pool_body : ℕ → String → Script X (Option ℕ)
  unfolding bake fork_all keep_all use_pool
  pool_body n base = do
    b ← bake base
    forks ← fork_all n 0 b.1.1
    keep_all forks
    use_pool n b.0 b.1.0 b.1.1 forks
    pure none

  -- main() of pool_serve.py, for N = n
  unfoldable pub pool_main : ℕ → Script X ℕ
  unfolding is_there base_folder act final pool_body stop_all verdict
  pool_main n = do
    built ← is_there L P.bin
    (if not built then pure 1 else do
      act L (removed_tree P.work)
      act L (made_folder (join P.work "base"))
      base_folder L P (join P.work "base")
          "control_socket=base.sock\ndata_socket=base.data\napp_port=8080\nram_mb=512\ncpus=1\n"
      r ← final (pool_body n (join P.work "base")) (stop_all L 500_000)
      verdict L r)
