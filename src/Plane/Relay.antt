-- ===== src/Plane/Relay.antt =====
-- scripts/relay_proof.py: a client that goes away in the middle of a command, and one that stops
-- reading. A recv that fails is taken for one that timed out.
pub mod Rounds
use nether.Prelude.{
  ℕ, zero, suc, ◌+◌, ◌/◌, String, ◌<>◌, str_eq, Bool, false, not, ◌||◌, Option, none, some, List,
  [], ◌∷◌, ◌++◌, ◌==◌, leb, if◌then◌else◌,
}
use nether.Prelude.Int.{ℤ, pos}
use nether.Prelude.Outcome.{Outcome, returned, raised}
use nether.Prelude.Action.{pure, raise, ◌>>=◌, ◌>>◌}
use nether.Os.{Bytes}
use nether.Errors.{value_error}
use nether.Vm.{contains}
use nether.Wire.{Recv, chunk, fails, rs, newline, has, before, after, unescape}
use nether.Lab.Reads.{Stop, exception}
use nether.Lab.{
  Site, Lab, Script, removed_tree, made_folder, linked, wrote, closed, gets, fail_if, keep, final,
  try_pass, try_or, act, after_act, launch, sleep, send, receive, meta, uc, await_path, attempts,
  stop_all, verdict,
}
use nether.Serve.{Place}
use nether.Plane.{one_recv, largest, timed}

-- How a loop of framed ends: its byte came, the stream ended, or a recv timed out.
pub data How : Type 0 where
  came ended timed_out : How

-- while RS not in b
reads_until : Bytes → List Recv → (Bytes × How) × List Recv
reads_until b [] = if has rs b then ((b, came), []) else ((b, timed_out), [])
reads_until b (chunk [] ∷ evs) = if has rs b then ((b, came), chunk [] ∷ evs) else ((b, ended), evs)
reads_until b (chunk (c ∷ cs) ∷ evs) =
    let rest = reads_until (b ++ (c ∷ cs)) evs in
    if has rs b then ((b, came), chunk (c ∷ cs) ∷ evs) else rest
reads_until b (fails ∷ evs) = if has rs b then ((b, came), fails ∷ evs) else ((b, timed_out), evs)

-- while b"\n" not in b[rs + 1:]
reads_exit : Bytes → List Recv → (Bytes × How) × List Recv
reads_exit b [] = if has newline (after rs b) then ((b, came), []) else ((b, timed_out), [])
reads_exit b (chunk [] ∷ evs) =
    if has newline (after rs b) then ((b, came), chunk [] ∷ evs) else ((b, ended), evs)
reads_exit b (chunk (c ∷ cs) ∷ evs) =
    let rest = reads_exit (b ++ (c ∷ cs)) evs in
    if has newline (after rs b) then ((b, came), chunk (c ∷ cs) ∷ evs) else rest
reads_exit b (fails ∷ evs) =
    if has newline (after rs b) then ((b, came), fails ∷ evs) else ((b, timed_out), evs)

-- The second part of a reply: an exit, None, or "TIMEOUT".
pub data Exit : Type 0 where
  exits : ℤ → Exit
  no_exit late : Exit

-- return un(b[:rs]), int(b[rs + 1:b.index(b"\n", rs + 1)])
parts : (Bytes → Option ℤ) → Bytes × How → Outcome Stop (Bytes × Exit)
parts to_int (b, timed_out) = returned (b, late)
parts to_int (b, _) =
    if has newline (after rs b)
    then elim (to_int (before newline (after rs b))) [
      | none ↦ raised (exception value_error)
      | some e ↦ returned (unescape (before rs b), exits e)
    ]
    else raised (exception value_error)

closing : (Bytes → Option ℤ) → (Bytes × How) × List Recv → Outcome Stop (Bytes × Exit) × List Recv
unfolding reads_exit parts
closing to_int ((b, timed_out), evs) = (returned (b, late), evs)
closing to_int ((b, ended), evs) = (returned (unescape b, no_exit), evs)
closing to_int ((b, came), evs) = let (r, evs') = reads_exit b evs in (parts to_int r, evs')

-- framed(s, to)
unfoldable pub framed_late :
    (Bytes → Option ℤ) → List Recv → Outcome Stop (Bytes × Exit) × List Recv
unfolding reads_until closing
framed_late to_int evs = closing to_int (reads_until [] evs)

is_zero : Exit → Bool
is_zero (exits (pos n)) = n == 0
is_zero _ = false

module _ {X : Type 0} (L : Site X) (P : Place) (srv : String) where
  open L use {join}

  -- s.sendall(line); framed(s, to)
  say : ℕ → String → Script X (String × Exit)
  unfolding send receive framed_late
  say s line = do send L s line; r ← receive L s (framed_late L.to_int); pure (L.decode r.0, r.1)

  -- The loop of boot that waits for the guest agent.
  agent_up : ℕ → Script X Bool
  unfolding attempts say
  agent_up s = attempts L 120 500_000 (do r ← say s "echo ready"; pure (contains "ready" r.0))

  -- boot(name, extra): the process and its connection
  unfoldable pub boot : String → String → Script X (ℕ × ℕ)
  unfolding act launch await_path uc agent_up
  boot name extra = do
    act L (made_folder (join P.work name))
    act L (linked (P.nb <> "/kernels") (join (join P.work name) "kernels"))
    act L (
        wrote (join (join P.work name) "nether.conf") (
          "control_socket=c.sock\ndata_socket=d.sock\napp_port=8080\nram_mb=512\ncpus=1\n"
          <> extra))
    p ← launch L (join P.work name)
    t0 ← gets (λ w. w.clock)
    await_path L (join (join P.work name) "c.sock") t0 40_000_000 100_000
    s ← uc L (join (join P.work name) "c.sock")
    agent_up s
    pure (p, s)

  -- #1: a primary that disconnects in the middle of a command
  disconnect : Script X (Unit {0})
  unfolding boot keep send sleep receive one_recv act uc say is_zero fail_if try_pass meta
  disconnect = do
    b ← boot "v1" ""
    keep b.0
    send L b.1 "for i in 1 2 3 4 5 6; do echo OLD-$i; sleep 0.3; done; echo OLD-END"
    sleep L 500_000
    receive L b.1 one_recv
    act L (closed b.1)
    sleep L 200_000
    c ← uc L (join (join P.work "v1") "c.sock")
    say c "__info__"
    r ← say c "echo NEWCMD"
    fail_if (not (str_eq r.0 "NEWCMD\n") || (not (is_zero r.1) || contains "OLD" r.0))
        "#1 relay leak: new primary got %r (expected clean NEWCMD)"
    act L (closed c)
    try_pass (do d ← uc L (join (join P.work "v1") "c.sock"); meta L d "__shutdown__"; pure tt)
    sleep L 500_000

  -- ok, lat = curl(dsk3, 6), and lat; 6.0 where it raises
  sample : String → Script X ℕ
  unfolding try_or timed
  sample dsk = try_or 6_000_000 (do r ← timed L dsk "/"; pure r.1)

  -- while time.time() < deadline: lats.append(m); time.sleep(0.1). The fuel bounds the rounds.
  rounds : ℕ → ℕ → Script X ℕ → Script X (List ℕ)
  unfolding sleep
  rounds zero deadline m w = (returned [], w)
  rounds (suc fuel) deadline m w =
      let more = (do l ← m; sleep L 100_000; ls ← rounds fuel deadline m; pure (l ∷ ls)) in
      if leb deadline w.clock then (returned [], w) else more w

  -- lats, after three seconds
  unfoldable pub curls : String → Script X (List ℕ)
  unfolding rounds sample
  curls dsk w = rounds (3_000_000 / 100_000 + 2) (w.clock + 3_000_000) (sample dsk) w

  -- mx = max(lats), and its check
  judge : List ℕ → Script X (Unit {0})
  unfolding fail_if largest
  judge [] = raise (exception value_error)
  judge (l ∷ ls) =
      fail_if (leb 500_000 (largest (l ∷ ls)))
        "#3 vCPU stalled: data-plane max latency %.3fs under a wedged consumer"

  -- any("UP" in cat(s3, "/tmp/up") or time.sleep(0.5) for _ in range(40))
  serving : ℕ → Script X Bool
  unfolding attempts say
  serving s =
      attempts L 40 500_000
        (do r ← say s "cat /tmp/up 2>/dev/null; echo"; pure (contains "UP" (L.strip r.0)))

  -- #3: a primary that floods, and stops reading
  wedge : Script X (Unit {0})
  unfolding boot keep say serving timed act sleep uc send curls judge try_pass fail_if
  wedge = do
    b ← boot "v3" "max_output_bytes=0\n"
    keep b.0
    say b.1 srv
    serving b.1
    timed L (join (join P.work "v3") "d.sock") "/"
    act L (closed b.1)
    sleep L 300_000
    a ← uc L (join (join P.work "v3") "c.sock")
    say a "__info__"
    send L a "head -c 800000 /dev/zero"
    sleep L 200_000
    lats ← curls (join (join P.work "v3") "d.sock")
    judge lats
    act L (closed a)
    sleep L 300_000
    c ← uc L (join (join P.work "v3") "c.sock")
    say c "__info__"
    r ← say c "echo AFTER"
    fail_if (not (str_eq r.0 "AFTER\n")) "#3 flooder not dropped: fresh primary got %r"

  -- The steps under `try`.
  unfoldable pub relay_body : Script X (Option ℕ)
  unfolding disconnect wedge
  relay_body = do disconnect; wedge; pure none

  -- finally: the processes are stopped, and the work folder is removed
  relay_clean_up : Lab X → Lab X
  unfolding stop_all after_act
  relay_clean_up w = after_act L (removed_tree P.work) (stop_all L 500_000 w)

  -- main() of relay_proof.py
  unfoldable pub relay_main : Script X ℕ
  unfolding act final relay_body relay_clean_up verdict
  relay_main = do
    act L (removed_tree P.work)
    act L (made_folder P.work)
    r ← final relay_body relay_clean_up
    verdict L r
