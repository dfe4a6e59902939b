-- ===== src/Plane.antt =====
-- scripts/data_plane_pacing.py, data_plane_fairness.py and relay_proof.py: VMs that serve HTTP over a
-- data plane, and how fast they answer. Times are in microseconds. What is printed, or measured only
-- to be printed, is left out.
pub mod Pacing
pub mod Fairness
pub mod Relay
use nether.Prelude.{
  ℕ, zero, suc, ◌+◌, ◌-◌, String, ◌<>◌, Bool, Option, none, some, List, [], ◌∷◌, ◌++◌, ltb,
  if◌then◌else◌, length,
}
use nether.Prelude.Outcome.{Outcome, returned, raised}
use nether.Prelude.Action.{pure, raise, ◌>>=◌, ◌>>◌}
use nether.Os.{Bytes}
use nether.Errors.{os_error}
use nether.Vm.{contains}
use nether.Wire.{Recv, chunk, fails}
use nether.Lab.Reads.{Stop, exception, stuck}
use nether.Lab.{
  Site, Lab, Script, Trace, removed_tree, closed, slept, terminated, killed, gets, try_pass, try_or,
  act, after_act, sleep, send, receive, cmd, cat, uc, await_path, attempts, ready,
}

-- s.recv(n)
unfoldable pub one_recv : List Recv → Outcome Stop Bytes × List Recv
one_recv [] = (raised (exception os_error), [])
one_recv (chunk b ∷ evs) = (returned b, evs)
one_recv (fails ∷ evs) = (raised (exception os_error), evs)

-- while True: c = d.recv(n); if not c: break; b += c, on a stream that comes to an end or on which a
-- recv fails
unfoldable pub read_end : Bytes → List Recv → Outcome Stop Bytes × List Recv
read_end b [] = (raised (exception os_error), [])
read_end b (chunk [] ∷ evs) = (returned b, evs)
read_end b (chunk (c ∷ cs) ∷ evs) = read_end (b ++ (c ∷ cs)) evs
read_end b (fails ∷ evs) = (raised (exception os_error), evs)

-- max(lat) if lat else 0
unfoldable pub largest : List ℕ → ℕ
largest [] = 0
largest (l ∷ ls) = let m = largest ls in if ltb m l then l else m

module _ {X : Type 0} (L : Site X) where
  -- A request, up to its reply. `send` adds the last byte.
  unfoldable pub request : String → String → Script X ℕ
  unfolding uc send
  request dsk path = do d ← uc L dsk; send L d (("GET " <> path) <> " HTTP/1.0\r\n\r"); pure d

  -- The loop of `read_end` on a connection. It does not end while bytes come, and no timeout of recv
  -- ends it then.
  unfoldable pub read_reply : ℕ → Script X Bytes
  unfolding receive read_end
  read_reply d = do
    endless ← gets (λ w. L.floods w.trace d)
    if endless then raise stuck else receive L d (read_end [])

  -- The reply, and the connection's end.
  unfoldable pub answer : ℕ → Script X Bytes
  unfolding read_reply act
  answer d = do b ← read_reply d; act L (closed d); pure b

  -- What came, and how long it took.
  unfoldable pub timed : String → String → Script X (Bytes × ℕ)
  unfolding request answer
  timed dsk path = do
    t ← gets (λ w. w.clock)
    d ← request dsk path
    b ← answer d
    now ← gets (λ w. w.clock)
    pure (b, now - t)

  -- http(dsock, path): the number of bytes, and how long it took
  unfoldable pub http : String → String → Script X (ℕ × ℕ)
  unfolding timed
  http dsk path = do r ← timed dsk path; pure (length r.0, r.1)

  -- The control socket, once it is there and its agent is up.
  unfoldable pub up : String → Script X ℕ
  unfolding await_path uc ready
  up csk = do
    t0 ← gets (λ w. w.clock)
    await_path L csk t0 40_000_000 100_000
    s ← uc L csk
    ready L (cmd L) s
    pure s

  -- The server in the guest: s.sendall(SRV...); framed(s, 5); any("UP" in cat(...) or time.sleep(0.5) ...)
  unfoldable pub serve_plane : String → ℕ → Script X Bool
  unfolding cmd cat attempts
  serve_plane srv s = do
    cmd L s srv
    attempts L 40 500_000 (do r ← cat L (cmd L) s "/tmp/up"; pure (contains "UP" r))

  -- The thread of a transfer of /big, up to its reply, and from there on. What it raises ends it only.
  unfoldable pub begin_big : String → Script X (Option ℕ)
  unfolding try_or request
  begin_big dsk = try_or none (do d ← request dsk "/big"; pure (some d))

  unfoldable pub join_big : Option ℕ → Script X (Unit {0})
  unfolding try_pass answer
  join_big none = pure tt
  join_big (some d) = try_pass (do answer d; pure tt)

  -- while th.is_alive() and len(lat) < n: _, l = http(dsk, "/small"); lat.append(l); time.sleep(0.02)
  unfoldable pub samples : (Trace → Bool) → ℕ → String → Script X (List ℕ)
  unfolding http sleep
  samples alive zero dsk = pure []
  samples alive (suc n) dsk = do
    on ← gets (λ w. alive w.trace)
    (if on
        then (do r ← http dsk "/small"; sleep L 20_000; ls ← samples alive n dsk; pure (r.1 ∷ ls))
        else pure [])

  -- try: s.sendall(b"__shutdown__\n"); s.recv(64) except Exception: pass
  unfoldable pub close_down : ℕ → Script X (Unit {0})
  unfolding try_pass send receive one_recv
  close_down s = try_pass (do send L s "__shutdown__"; receive L s one_recv; pure tt)

  -- try: p.terminate(); time.sleep(0.5); p.kill() except Exception: pass; shutil.rmtree(WORK)
  unfoldable pub stop_one : String → ℕ → Lab X → Lab X
  unfolding after_act
  stop_one work p w =
      let w1 = after_act L (slept 500_000) (after_act L (terminated p) w) in
      after_act L (removed_tree work)
        (after_act L (killed p) (record w1 { clock = w1.clock + 500_000 }))
