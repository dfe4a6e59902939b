-- ===== src/Park/Await.antt =====
-- scripts/park_await_proof.py: a guest is parked while it waits for its upstream, and its own recv
-- completes in the fork; the park is used up, and the fork can be parked again.
use text.Mathlib.Text.{starts_with}
use nether.Prelude.{
  ℕ, String, ◌<>◌, str_eq, Bool, true, false, not, Option, none, some, List, [], ◌∷◌, ◌++◌, ◌&&◌,
  ◌||◌, if◌then◌else◌,
}
use nether.Prelude.Int.{ℤ, pos, negsuc}
use nether.Prelude.Outcome.{returned}
use nether.Prelude.Action.{pure, raise, ◌>>=◌, ◌>>◌}
use nether.Vm.{contains}
use nether.Errors.{index_error}
use nether.Lab.Reads.{exception, leaves}
use nether.Lab.{
  Site, Script, removed_tree, made_folder, killed, gets, fail, fail_if, final, catch_exit, act,
  is_there, read_text, sleep, cmd, cat, launch, wait, until, ready, shut_down, stop_all, verdict,
}
use nether.Serve.{Place}
use nether.Park.{nonzero, egress_base, boot, wake_up, fork_conf, left_itself}
use nether.Park.Broker.{eqℤ}

-- The broker's dictionaries and what it sent: `fresh` has the parked requests by connection.
pub record Platform : Type 0 where
  pub fresh : List (ℤ × String)
  pub resumed : List ℤ
  pub errors : List String
  pub replies : List (ℤ × String)

abbrev pub nonce : String
nonce = "PARKED-REPLY-7f3a9c"

abbrev pub nonce2 : String
nonce2 = "PARKED-REPLY-GEN2-b41d"

-- self.fresh.get(cid)
unfoldable pub find_request : ℤ → List (ℤ × String) → Option String
find_request c [] = none
find_request c ((d, req) ∷ m) = if eqℤ d c then some req else find_request c m

-- self.fresh[cid] = req
unfoldable pub put_request : ℤ → String → List (ℤ × String) → List (ℤ × String)
put_request c req [] = (c, req) ∷ []
put_request c req ((d, old) ∷ m) = if eqℤ d c then (d, req) ∷ m else (d, old) ∷ put_request c req m

-- What the thread of a connection comes to, where it raises nothing, from its stripped preamble,
-- the number after "conn=" (-1 without one), whether it resumes, and the request.
unfoldable pub serve : String → ℤ → Bool → String → Platform → Platform
unfolding find_request put_request
serve pre cid resume req b =
    if not (starts_with pre "NETHER-EGRESS v1") || (elim cid [ pos n ↦ false | negsuc n ↦ true ])
    then record b { errors = b.errors ++ ("bad preamble: %r" ∷ []) }
    else if resume
    then (let b' = record b { resumed = cid ∷ b.resumed } in
        elim (find_request cid b.fresh) [
          | none ↦ record b' { errors = b.errors ++ ("resume for unknown conn %d" ∷ []) }
          | some old ↦ record b' {
            replies =
                (cid, ("REPLY " <> (if contains "/slow2" old then nonce2 else nonce)) <> "\n")
                ∷ b.replies;
          }
        ])
    else if contains "/quick" req
    then record b { replies = (cid, "REPLY quick-ok\n") ∷ b.replies }
    else record b { fresh = put_request cid req b.fresh }

-- [k for k in broker.fresh if needle in broker.fresh[k]][0], and any(...)
unfoldable pub with_request : String → List (ℤ × String) → Option ℤ
with_request needle [] = none
with_request needle ((c, req) ∷ m) = if contains needle req then some c else with_request needle m

is_resumed : ℤ → List ℤ → Bool
is_resumed c [] = false
is_resumed c (d ∷ ds) = if eqℤ d c then true else is_resumed c ds

abbrev is_none : {A : Type 0} → Option A → Bool
is_none none = true
is_none (some a) = false

-- The guest's three requests, lines of shell.
pub record Requests : Type 0 where
  pub quick : String
  pub slow : String
  pub slow2 : String

module _ (L : Site Platform) (P : Place) (Q : Requests) (lines : String → List String) where
  open L use {join}

  -- The first line that starts with "egress_plane="
  plane : List String → String
  plane [] = ""
  plane (l ∷ ls) = if starts_with l "egress_plane=" then l else plane ls

  note_all : List String → Script Platform (Unit {0})
  note_all fs w = (returned tt, record w { fails = w.fails ++ fs })

  -- while time.time() - t0 < 15 and no request with the text is parked; else the script leaves.
  await_request : String → String → Script Platform ℤ
  unfolding until with_request fail
  await_request needle failure = do
    t0 ← gets (λ w. w.clock)
    r ← until L t0 15_000_000 300 (gets (λ w. with_request needle w.platform.fresh))
    elim r [ some c ↦ pure c | none ↦ do fail failure; raise leaves ]

  -- The first parked request: some connection is parked within 15 seconds, or the script leaves, and
  -- the first one whose request has "/slow" is taken.
  await_parked : Script Platform ℤ
  unfolding until with_request fail
  await_parked = do
    t0 ← gets (λ w. w.clock)
    r ←
        until L t0 15_000_000 300
          (gets (λ w. elim w.platform.fresh [ [] ↦ none | e ∷ es ↦ some tt ]))
    fresh ← gets (λ w. w.platform.fresh)
    (if is_none r
        then (do fail "broker never saw the slow request"; raise leaves)
        else (elim (with_request "/slow" fresh) [
          | some c ↦ pure c
          | none ↦ raise (exception index_error)
        ]))

  -- while time.time() - t0 < 25: got = cat(...); if text in got: break
  await_reply : ℕ → ℕ → String → String → Script Platform Bool
  unfolding until cat cmd
  await_reply t0 s path text = do
    r ←
        until L t0 25_000_000 300
          (do got ← cat L (cmd L) s path; pure (if contains text got then some tt else none))
    pure (not (is_none r))

  -- Steps 1 to 4: the boot, the quick request, the slow one, and the park: the connection's number.
  unfoldable pub park_base : String → Script Platform ℤ
  unfolding boot ready cmd fail_if cat plane await_parked sleep left_itself read_text
  park_base base = do
    b ← boot L base
    ready L (cmd L) b.1
    info ← cmd L b.1 "__info__"
    fail_if (not (str_eq (plane (lines info)) "egress_plane=on"))
        "__info__ does not advertise egress_plane=on"
    cmd L b.1 Q.quick
    q ← cat L (cmd L) b.1 "/tmp/quick"
    fail_if (not (contains "quick-ok" q)) "fresh egress round-trip failed: %r"
    cmd L b.1 Q.slow
    cid ← await_parked
    cat L (cmd L) b.1 "/tmp/reply"
    sleep L 1_000_000
    rep ← cmd L b.1 "__park__ park.snap"
    fail_if (not (starts_with rep "OK parked")) "__park__ failed: %r"
    fail_if (not (contains "uptime_ms=" rep)) "__park__ reply missing the in-band bill: %r"
    left_itself L b.0 "park exit code %s != 0" "nether did not exit after __park__"
    blog ← read_text L (join base "boot.log")
    fail_if (not (contains "(reason=park)" blog)) "boot.log missing the reason=park teardown record"
    fail_if (not (contains "guest left quiesced" blog)) "boot.log missing the no-resume park line"
    sleep L 2_000_000
    pure cid

  -- Step 6: the wake, after which the guest has its reply: the process and its connection.
  unfoldable pub wake_fork : ℤ → String → String → String → Script Platform (ℕ × ℕ)
  unfolding fork_conf wake_up await_reply fail_if is_resumed read_text cat cmd
  wake_fork cid base fork esock = do
    fork_conf L fork (join base "park.snap") "f.sock" esock
    t0 ← gets (λ w. w.clock)
    f ← wake_up L fork "f.sock"
    ok ← await_reply t0 f.1 "/tmp/reply" nonce
    fail_if (not ok) "guest recv() did not complete with the parked reply (got %r)"
    seen ← gets (λ w. is_resumed cid w.platform.resumed)
    fail_if (not seen) "broker never saw resume=1 for conn %d"
    flog ← read_text L (join fork "fork.log")
    cat L (cmd L) f.1 "/tmp/req.log"
    fail_if (not (contains "park consumed" flog)) "fork log missing 'park consumed'"
    pure f

  -- Step 7: the park's file is gone, and a second wake of it fails.
  unfoldable pub wake_again : String → String → String → Script Platform (Unit {0})
  unfolding is_there fail_if act fork_conf launch wait read_text
  wake_again base fork2 esock = do
    there ← is_there L (join base "park.snap")
    fail_if there "park.snap still exists after the wake (not consumed)"
    act L (made_folder fork2)
    fork_conf L fork2 (join base "park.snap") "f2.sock" esock
    f2 ← launch L fork2
    rc ← wait L f2
    elim rc [ none ↦ act L (killed f2) | some code ↦ pure tt ]
    log ← read_text L (join fork2 "fork2.log")
    fail_if
        (not ((elim rc [ none ↦ false | some code ↦ nonzero code ]) && contains "cannot open" log))
        "second wake of the consumed park did not fail cleanly (rc=%s, log=%r)"

  -- Step 8: the fork is parked and woken in its turn.
  unfoldable pub second_generation : ℕ × ℕ → String → String → String → Script Platform (Unit {0})
  unfolding cmd await_request sleep fail_if left_itself act fork_conf wake_up await_reply cat
      is_there shut_down
  second_generation f fork fork3 esock = do
    cmd L f.1 Q.slow2
    await_request "/slow2" "broker never saw the gen-2 slow request"
    sleep L 1_000_000
    rep ← cmd L f.1 "__park__ park2.snap"
    fail_if (not (starts_with rep "OK parked")) "fork __park__ failed: %r"
    left_itself L f.0 "fork park exit code %s != 0" "fork did not exit after __park__"
    act L (made_folder fork3)
    fork_conf L fork3 (join fork "park2.snap") "f3.sock" esock
    t0 ← gets (λ w. w.clock)
    g ← wake_up L fork3 "f3.sock"
    ok ← await_reply t0 g.1 "/tmp/reply2" nonce2
    fail_if (not ok) "gen-2 recv() did not complete (got %r)"
    got ← cat L (cmd L) g.1 "/tmp/reply"
    fail_if (not (contains nonce got)) "gen-1 reply lost across re-park (got %r)"
    there ← is_there L (join fork "park2.snap")
    fail_if there "park2.snap not consumed by wake2"
    shut_down L (cmd L) g.1

  -- The steps under `try`.
  unfoldable pub await_body : String → String → String → Script Platform (Option ℕ)
  unfolding park_base wake_fork wake_again second_generation
  await_body base fork esock = do
    cid ← park_base base
    f ← wake_fork cid base fork esock
    wake_again base (join P.work "f2") esock
    second_generation f fork (join P.work "f3") esock
    pure none

  -- main() of park_await_proof.py
  unfoldable pub await_main : Script Platform ℕ
  unfolding is_there act egress_base final catch_exit await_body stop_all note_all verdict
  await_main = do
    built ← is_there L P.bin
    (if not built then pure 1 else (do
      act L (removed_tree P.work)
      act L (made_folder (join P.work "b"))
      act L (made_folder (join P.work "f"))
      egress_base L P (join P.work "b") (join P.work "e.sock")
      r ←
          final (catch_exit (await_body (join P.work "b") (join P.work "f") (join P.work "e.sock")))
            (stop_all L 400_000)
      errors ← gets (λ w. w.platform.errors)
      note_all errors
      verdict L r))
