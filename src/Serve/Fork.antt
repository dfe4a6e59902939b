-- ===== src/Serve/Fork.antt =====
-- scripts/fork_serve.py: a fork of a warm base serves, and the base goes on.
pub mod Stops
use nether.Prelude.{
  ℕ, zero, suc, ◌+◌, String, ◌<>◌, str_eq, Bool, true, false, not, ◌&&◌, ◌||◌, Option, none, some,
  List, [], ◌∷◌, ltb, if◌then◌else◌,
}
use nether.Prelude.Int.{ℤ, leℤ}
use nether.Prelude.Action.{pure, ◌>>=◌, ◌>>◌}
use nether.Vm.{contains}
use nether.Lab.{
  Site, Script, removed_tree, made_folder, wrote, closed, gets, fail_if, final, try_or, try_pass,
  act, is_there, read_text, start, uc, cmd_raw, meta, cat, hit, until, ready, stop_all, verdict,
}
use nether.Serve.{Place, last_value, serves, base_folder, wait_up, worker}

-- The words that start with "REQ=" and that `int` reads, the last one of them.
parse_req_words : (String → Option ℤ) → List String → Option ℤ
unfolding last_value
parse_req_words number [] = none
parse_req_words number (tok ∷ toks) =
    let here : Option ℤ = elim (last_value "REQ=" (tok ∷ [])) [ none ↦ none | some v ↦ number v ] in
    elim (parse_req_words number toks) [ some n ↦ some n | none ↦ here ]

module _ {X : Type 0} (L : Site X) (P : Place) (srv : String) (number : String → Option ℤ) where
  open L use {join}

  -- The second value of parse(resp); `number` is `int`, and none where that raises ValueError.
  unfoldable pub parse_req : String → Option ℤ
  unfolding parse_req_words
  parse_req resp = parse_req_words number (L.split resp)

  -- freq2 is None or breq2 is None or freq2 <= breq2
  behind : Option ℤ → Option ℤ → Bool
  behind (some f) (some b) = leℤ f b
  behind _ _ = true

  has_req : String → Bool
  unfolding parse_req
  has_req resp = elim (parse_req resp) [ none ↦ false | some n ↦ true ]

  -- wait_sock(base.sock): while time.time() - t0 < 40: if exists: return True; time.sleep(0.0003)
  wait_base : String → Script X Bool
  unfolding until is_there
  wait_base base = do
    t0 ← gets (λ w. w.clock)
    r ←
        until L t0 40_000_000 300
          (do there ← is_there L (join base "base.sock"); pure (if there then some tt else none))
    pure (elim r [ none ↦ false | some u ↦ true ])

  -- The base, up to the snapshot: its connection and the server's id, or that it never came up.
  unfoldable pub warm_base : String → Script X (Option (ℕ × String))
  unfolding start wait_base uc cmd_raw ready wait_up cat hit has_req meta fail_if
  warm_base base = do
    start L base
    up ← wait_base base
    (if not up then pure none else do
      s ← uc L (join base "base.sock")
      cmd_raw L s "__info__"
      ready L (cmd_raw L) s
      cmd_raw L s srv
      wait_up L s
      iid ← cat L (cmd_raw L) s "/tmp/iid"
      r ← hit L (join base "base.data")
      fail_if (not (serves L iid (some r)) || not (has_req r))
          "base did not serve its warm server before snapshot"
      rep ← meta L s "__snapshot__ base.snap"
      fail_if (not (contains "OK" rep)) "snapshot failed: %s"
      pure (some (s, iid)))

  -- A round of the wait until the fork's control socket answers __info__.
  drive_round : String → Script X (Option (Unit {0}))
  unfolding is_there try_or uc cmd_raw act
  drive_round fctl = do
    there ← is_there L fctl
    (if there
        then try_or none (do
          cs ← uc L fctl
          r ← cmd_raw L cs "__info__"
          act L (closed cs)
          pure (if not (str_eq r "") && not (contains "ERR" r) then some tt else none))
        else pure none)

  -- A round of the wait until the fork's data socket answers.
  serve_round : String → Script X (Option String)
  unfolding is_there try_or hit
  serve_round fdata = do
    there ← is_there L fdata
    (if there
        then try_or none (do r ← hit L fdata; pure (if str_eq r "" then none else some r))
        else pure none)

  -- for _ in range(n): rf = hit(path), of which the last answer is kept
  hits : ℕ → String → String → Script X String
  unfolding hit
  hits zero last path = pure last
  hits (suc n) last path = do r ← hit L path; hits n r path

  -- burst(path, n): how many of the workers are answered by the server
  burst : ℕ → String → String → Script X ℕ
  unfolding worker
  burst zero iid path = pure 0
  burst (suc n) iid path = do
    r ← worker L 2 iid path
    ok ← burst n iid path
    pure (if serves L iid r then ok + 1 else ok)

  -- is_iid: fiid == base_iid, for an answer that may be missing
  inherits : String → Option String → Bool
  inherits iid none = false
  inherits iid (some r) = serves L iid (some r)

  -- Steps 3 and 4, from the launch of the fork on, by the paths of its sockets.
  unfoldable pub judge : String → String → String → Script X (Unit {0})
  unfolding until drive_round serve_round inherits hits behind burst hit parse_req fail_if start
  judge iid base fork = do
    t0 ← gets (λ w. w.clock)
    start L fork
    drive ← until L t0 40_000_000 300 (drive_round (join fork "fork.sock"))
    fail_if (elim drive [ none ↦ true | some u ↦ false ])
        "FORK never became driveable (no __info__ response)"
    first ← until L t0 40_000_000 300 (serve_round (join fork "fork.data"))
    fail_if (elim first [ none ↦ true | some r ↦ false ]) "FORK never served via its data_socket"
    fail_if (not (inherits iid first)) "fork IID %s != base IID %s (not the inherited warm server)"
    rf ← hits 3 "" (join fork "fork.data")
    rb ← hit L (join base "base.data")
    fail_if (behind (parse_req rf) (parse_req rb))
        "counters did not diverge as independent VMs (fork=%s base=%s)"
    rb2 ← hit L (join base "base.data")
    fail_if (not (serves L iid (some rb2))) "base stopped serving its warm server after the fork"
    bok ← burst 16 iid (join base "base.data")
    fok ← burst 16 iid (join fork "fork.data")
    fail_if (ltb fok bok) "fork concurrency %d/%d WORSE than base baseline %d/%d"
    flog ← read_text L (join fork "fork.log")
    fail_if (contains "dumpCurrentStackTrace" flog || contains "unexpected errno" flog)
        "fork.log has a stack trace (headless isatty regression)"

  -- The two sessions are shut down, if they can be reached.
  bill : ℕ → String → Script X (Unit {0})
  unfolding try_pass meta uc
  bill s fork = do
    try_pass (do meta L s "__shutdown__"; pure tt)
    try_pass (do fs ← uc L (join fork "fork.sock"); meta L fs "__shutdown__"; pure tt)

  -- The steps under `try`.
  unfoldable pub fork_body : String → String → Script X (Option ℕ)
  unfolding warm_base judge bill act
  fork_body base fork = do
    b ← warm_base base
    elim b [
      | none ↦ pure (some 1)
      | some (s, iid) ↦ do
        act L (
            wrote (join fork "nether.conf") (
              ("restore=1\nrestore_from=" <> join base "base.snap")
              <> "\ncontrol_socket=fork.sock\ndata_socket=fork.data\napp_port=8080\n"))
        judge iid base fork
        bill s fork
        pure none
    ]

  -- main() of fork_serve.py
  unfoldable pub fork_main : Script X ℕ
  unfolding is_there base_folder act final fork_body stop_all verdict
  fork_main = do
    built ← is_there L P.bin
    (if not built then pure 1 else do
      act L (removed_tree P.work)
      act L (made_folder (join P.work "base"))
      act L (made_folder (join P.work "fork"))
      base_folder L P (join P.work "base")
          "control_socket=base.sock\ndata_socket=base.data\napp_port=8080\nram_mb=512\ncpus=1\n"
      r ← final (fork_body (join P.work "base") (join P.work "fork")) (stop_all L 500_000)
      verdict L r)
