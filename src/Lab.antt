-- ===== src/Lab.antt =====
-- What the proof scripts (scripts/*_proof.py, fork_serve.py, pool_serve.py) share: the host that they
-- run on, and the helpers that each of them copies. A script launches VMs, drives them over their
-- sockets, notes what fails, and stops them in the end.
pub mod Reads
mod State
pub mod Preserved
pub mod Tracks
pub mod Stops
use nether.Prelude.{
  ℕ, zero, suc, ◌+◌, ◌/◌, String, ◌<>◌, Bool, true, false, Option, none, some, List, [], ◌∷◌, ◌++◌,
  ◌==◌, leb, ltb, if◌then◌else◌,
}
use nether.Prelude.Int.{ℤ}
use nether.Prelude.Outcome.{Outcome, returned, raised}
use nether.Prelude.Action.{pure, raise, ◌>>=◌, ◌>>◌}
use nether.Errors.{os_error, timeout_expired}
use nether.Vm.{contains}
use nether.Wire.{Recv}
use Reads.{Stop, exception, frame, framed, meta_line, read_all, body_of}
unfoldable pub use State.{
  is_empty, is_stuck, fail, fail_if, keep, final, try_pass, try_or, catch_exit,
}
pub use State.{
  Act, Trace, Site, Lab, Script, gets, removed_tree, made_folder, bound, awaited, linked, wrote,
  launched, connected, sent, closed, slept, waited, terminated, killed, ran,
}

module _ {X : Type 0} (L : Site X) where
  -- A call: the clock goes on, and the broker's threads go on.
  unfoldable pub after_act : Act → Lab X → Lab X
  after_act a w =
      let t = a ∷ w.trace in
      record w { clock = w.clock + L.takes t; trace = t; platform = L.broker t w.platform }

  unfoldable pub act : Act → Script X (Unit {0})
  unfolding after_act
  act a w = (returned tt, after_act a w)

  -- time.sleep, in microseconds
  unfoldable pub sleep : ℕ → Script X (Unit {0})
  unfolding after_act
  sleep us w = let w' = after_act (slept us) w in (returned tt, record w' { clock = w'.clock + us })

  -- os.path.exists
  unfoldable pub is_there : String → Script X Bool
  is_there p w = (returned (L.present w.trace w.clock p), w)

  -- open(p).read()
  unfoldable pub read_text : String → Script X String
  read_text p w = elim (L.contents w.trace p) [
    | none ↦ (raised (exception os_error), w)
    | some s ↦ (returned s, w)
  ]

  -- os.makedirs and open(p, "w").write(...), where they may raise OSError
  unfoldable pub perform : Act → Script X (Unit {0})
  unfolding after_act
  perform a w =
      if L.allows a w.trace w.clock
      then (returned tt, after_act a w)
      else (raised (exception os_error), w)

  -- launch(cwd, log): the process. The log may not open, and the binary may not run.
  unfoldable pub launch : String → Script X ℕ
  unfolding after_act
  launch cwd w =
      let w' = after_act (launched w.made cwd) w in
      if L.allows (launched w.made cwd) w.trace w.clock
      then (returned w.made, record w' { made = w.made + 1 })
      else (raised (exception os_error), w)

  -- p = launch(cwd, log); procs.append(p)
  unfoldable pub start : String → Script X ℕ
  unfolding launch keep
  start cwd = do p ← launch cwd; keep p; pure p

  -- uc(path): the connection
  unfoldable pub uc : String → Script X ℕ
  unfolding after_act
  uc path w =
      if L.accepts w.trace w.clock path
      then (let w' = after_act (connected w.conns path) w in
          (
            returned w.conns,
            record w' { conns = w.conns + 1; inbox = λ c. if c == w.conns then [] else w.inbox c },
          ))
      else (raised (exception os_error), w)

  -- s.sendall(line.encode() + b"\n")
  unfoldable pub send : ℕ → String → Script X (Unit {0})
  unfolding after_act
  send c line w =
      let w' = after_act (sent c line) w in
      (
        returned tt,
        record w' { inbox = λ d. if d == c then w'.inbox c ++ L.recvs w'.trace else w'.inbox d },
      )

  -- A reader of the connection; what it does not read stays.
  unfoldable pub receive : {A : Type 0} → ℕ → (List Recv → Outcome Stop A × List Recv) → Script X A
  receive c reader w =
      let (r, evs) = reader (w.inbox c) in
      (r, record w { inbox = λ d. if d == c then evs else w.inbox d })

  -- cmd(s, line) of the scripts with `framed`: the body and the exit
  unfoldable pub cmd_exit : ℕ → String → Script X (String × Option ℤ)
  unfolding send receive framed
  cmd_exit c line = do send c line; r ← receive c (framed L.to_int); pure (L.decode r.0, r.1)

  unfoldable pub cmd : ℕ → String → Script X String
  unfolding cmd_exit
  cmd c line = do r ← cmd_exit c line; pure r.0

  -- cmd(s, line) of fork_serve.py and pool_serve.py, which reads a frame as it is escaped
  unfoldable pub cmd_raw : ℕ → String → Script X String
  unfolding send receive frame
  cmd_raw c line = do send c line; b ← receive c frame; pure (L.decode b)

  -- meta(s, line)
  unfoldable pub meta : ℕ → String → Script X String
  unfolding send receive meta_line
  meta c line = do send c line; b ← receive c meta_line; pure (L.strip (L.decode b))

  -- cat(s, path), by either cmd
  unfoldable pub cat : (ℕ → String → Script X String) → ℕ → String → Script X String
  cat by c path = do r ← by c (("cat " <> path) <> " 2>/dev/null; echo"); pure (L.strip r)

  -- hit(path): the body of the reply to one HTTP request. `send` adds the last byte of the request.
  unfoldable pub hit : String → Script X String
  unfolding uc send receive read_all body_of act
  hit path = do
    c ← uc path
    send c "GET / HTTP/1.0\r\n\r"
    b ← receive c read_all
    act (closed c)
    pure (L.strip (L.decode (body_of b)))

  -- p.wait(timeout=...): none if the time is over
  unfoldable pub wait : ℕ → Script X (Option ℤ)
  unfolding after_act
  wait p w = let w' = after_act (waited p) w in (returned (L.exit_code w'.trace), w')

  -- p.wait(timeout=...) where TimeoutExpired is not caught
  unfoldable pub wait_or_raise : ℕ → Script X ℤ
  unfolding wait
  wait_or_raise p = do
    r ← wait p
    elim r [ none ↦ raise (exception timeout_expired) | some code ↦ pure code ]

  -- while not os.path.exists(path) and time.time() - t0 < timeout: time.sleep(pause)
  unfoldable pub await_from : ℕ → String → ℕ → ℕ → Script X (Unit {0})
  unfolding sleep
  await_from zero path deadline pause w = (returned tt, w)
  await_from (suc fuel) path deadline pause w =
      let later = (do sleep pause; await_from fuel path deadline pause) w in
      if L.present w.trace w.clock path
      then (returned tt, w)
      else if leb deadline w.clock
      then (returned tt, w)
      else later

  -- The same, with `t0`, the timeout and the pause in microseconds.
  unfoldable pub await_path : String → ℕ → ℕ → ℕ → Script X (Unit {0})
  unfolding await_from
  await_path path t0 timeout pause = await_from (timeout / pause + 2) path (t0 + timeout) pause

  -- wait_sock(p, to): while not exists: if time.time() - t0 > to: return False; time.sleep(pause)
  sock_from : ℕ → String → ℕ → ℕ → Script X Bool
  unfolding sleep
  sock_from zero path deadline pause w = (returned false, w)
  sock_from (suc fuel) path deadline pause w =
      let later = (do sleep pause; sock_from fuel path deadline pause) w in
      if L.present w.trace w.clock path
      then (returned true, w)
      else if ltb deadline w.clock
      then (returned false, w)
      else later

  unfoldable pub wait_sock : String → ℕ → ℕ → Script X Bool
  unfolding sock_from
  wait_sock path timeout pause w = sock_from (timeout / pause + 2) path (w.clock + timeout) pause w

  -- for _ in range(n): if m: break; time.sleep(pause). The result is whether it broke off.
  unfoldable pub attempts : ℕ → ℕ → Script X Bool → Script X Bool
  unfolding sleep
  attempts zero pause m = pure false
  attempts (suc n) pause m = do
    ok ← m
    (if ok then pure true else (do sleep pause; attempts n pause m))

  -- while time.time() < deadline: r = m; if r: break; time.sleep(pause). The fuel bounds the rounds.
  until_from : {A : Type 0} → ℕ → ℕ → ℕ → Script X (Option A) → Script X (Option A)
  unfolding sleep
  until_from zero deadline pause m w = (returned none, w)
  until_from (suc fuel) deadline pause m w =
      let again = (do sleep pause; until_from fuel deadline pause m) in
      if leb deadline w.clock
      then (returned none, w)
      else (do r ← m; elim r [ some a ↦ pure (some a) | none ↦ again ]) w

  -- The same from `t0`, with the timeout and the pause in microseconds.
  unfoldable pub until : {A : Type 0} → ℕ → ℕ → ℕ → Script X (Option A) → Script X (Option A)
  unfolding until_from
  until t0 timeout pause m = until_from (timeout / pause + 2) (t0 + timeout) pause m

  -- for _ in range(120): if "ready" in cmd(s, "echo ready"): break; time.sleep(0.5)
  unfoldable pub ready : (ℕ → String → Script X String) → ℕ → Script X Bool
  unfolding attempts
  ready by c = attempts 120 500_000 (do r ← by c "echo ready"; pure (contains "ready" r))

  -- try: cmd(s, "__shutdown__") except Exception: pass
  unfoldable pub shut_down : (ℕ → String → Script X String) → ℕ → Script X (Unit {0})
  unfolding try_pass
  shut_down by c = try_pass (do by c "__shutdown__"; pure tt)

  all_acts : (ℕ → Act) → List ℕ → Lab X → Lab X
  unfolding after_act
  all_acts a [] w = w
  all_acts a (p ∷ ps) w = all_acts a ps (after_act (a p) w)

  -- for p in procs: p.terminate(); time.sleep(pause); for p in procs: p.kill()
  unfoldable pub stop_all : ℕ → Lab X → Lab X
  unfolding all_acts after_act
  stop_all pause w =
      let w1 = after_act (slept pause) (all_acts terminated w.procs w) in
      all_acts killed w.procs (record w1 { clock = w1.clock + pause })

  -- The end of a main: the status of an early return, or 0 if nothing failed.
  unfoldable pub verdict : Option ℕ → Script X ℕ
  unfolding is_empty
  verdict (some n) w = (returned n, w)
  verdict none w = (returned (if is_empty w.fails then 0 else 1), w)
