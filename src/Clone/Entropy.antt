-- ===== src/Clone/Entropy.antt =====
-- scripts/fork_entropy_proof.py: sibling forks draw the same random bytes without the agent's reseed,
-- and others with it; an old image without the handler is tolerated.
use text.Mathlib.Text.{starts_with}
use nether.Prelude.{
  ℕ, String, ◌<>◌, str_eq, Bool, true, false, not, ◌&&◌, ◌||◌, Option, none, some, List, [], ◌∷◌,
  ◌==◌, if◌then◌else◌,
}
use nether.Prelude.Int.{ℤ, pos}
use nether.Prelude.Action.{pure, raise, ◌>>=◌, ◌>>◌}
use nether.Vm.{contains}
use nether.Lab.Reads.{framed, leaves}
use nether.Lab.{
  Site, Script, made_folder, linked, wrote, killed, gets, fail, fail_if, final, catch_exit, try_or,
  act, is_there, read_text, sleep, receive, cmd, cmd_exit, start, uc, await_path, attempts, wait,
  shut_down, stop_all, verdict,
}
use nether.Serve.{Place}
use nether.Clone.{fresh_work, control_base}

abbrev pub reseeded : String
reseeded = "[nether] fork crng reseeded (64B via agent)"

abbrev pub read16 : String
read16 = "head -c16 /dev/urandom | od -An -tx1 | tr -d ' \\n'"

-- e == n, for an exit that may be None
abbrev pub exit_is : ℕ → Option ℤ → Bool
exit_is n (some (pos e)) = e == n
exit_is n _ = false

-- The failure of two first reads, if any: whether a read failed, and else whether they compare wrongly.
unfoldable pub reads_fail :
    (String → ℕ) → Bool → String × Option ℤ → String × Option ℤ → Bool × Bool
reads_fail size want_same (r1, e1) (r2, e2) =
    if not (exit_is 0 e1) || (not (exit_is 0 e2) || not (size r1 == 32))
    then (true, false)
    else (false, (if want_same then not (str_eq r1 r2) else str_eq r1 r2))

-- `size` is len of a text.
module _ {X : Type 0} (L : Site X) (P : Place) (size : String → ℕ) where
  open L use {join, strip}

  -- A round of the wait for the agent: an exception counts as no answer.
  agent_round : ℕ → Script X Bool
  unfolding try_or cmd
  agent_round s = try_or false (do r ← cmd L s "echo ready"; pure (contains "ready" r))

  -- bake_base(tag, kernels, procs, fails): the path of the snapshot
  unfoldable pub bake_base : String → String → Script X String
  unfolding act control_base start await_path uc attempts agent_round cmd fail_if wait fail
  bake_base tag kernels = do
    act L (made_folder (join P.work tag))
    control_base L P (join P.work tag) kernels
    p ← start L (join P.work tag)
    t0 ← gets (λ w. w.clock)
    await_path L (join (join P.work tag) "c.sock") t0 40_000_000 100_000
    s ← uc L (join (join P.work tag) "c.sock")
    attempts L 120 500_000 (agent_round s)
    r ← cmd L s "__snapshot__ base.snap"
    fail_if (not (starts_with r "OK")) "[%s] __snapshot__ failed: %r"
    cmd L s "__shutdown__"
    rc ← wait L p
    elim rc [ some code ↦ pure tt | none ↦ do act L (killed p); fail "[%s] base did not exit" ]
    pure (join (join P.work tag) "base.snap")

  -- fork(tag, base_snap, procs, extra, connect=False): the folder
  unfoldable pub fork_only : String → String → String → Script X String
  unfolding act start await_path
  fork_only tag snap extra = do
    act L (made_folder (join P.work tag))
    act L (
        wrote (join (join P.work tag) "nether.conf")
          ((("restore=1\nrestore_from=" <> snap) <> "\ncontrol_socket=c.sock\n") <> extra))
    t0 ← gets (λ w. w.clock)
    start L (join P.work tag)
    await_path L (join (join P.work tag) "c.sock") t0 30_000_000 20_000
    pure (join P.work tag)

  -- fork(tag, base_snap, procs, extra): the connection and the folder
  unfoldable pub fork : String → String → String → Script X (ℕ × String)
  unfolding fork_only uc
  fork tag snap extra = do d ← fork_only tag snap extra; s ← uc L (join d "c.sock"); pure (s, d)

  -- r, e = cmd(s, READ16), with the text stripped
  first_read : ℕ → Script X (String × Option ℤ)
  unfolding cmd_exit
  first_read s = do r ← cmd_exit L s read16; pure (strip r.0, r.1)

  -- Whether the fork's log has the line of the reseed.
  is_reseeded : String → Script X Bool
  unfolding read_text
  is_reseeded d = do log ← read_text L (join d "fork.log"); pure (contains reseeded log)

  -- 1: without the reseed the siblings draw the same.
  unfoldable pub vulnerable : String → Script X (Unit {0})
  unfolding fork first_read reads_fail is_reseeded fail_if shut_down
  vulnerable base = do
    f1 ← fork "v1" base "fork_reseed=0\n"
    f2 ← fork "v2" base "fork_reseed=0\n"
    r1 ← first_read f1.0
    r2 ← first_read f2.0
    fail_if (reads_fail size true r1 r2).0 "vuln-phase read failed (e1=%s e2=%s r1=%r)"
    fail_if (reads_fail size true r1 r2).1
        "vuln phase: siblings DIFFER with reseed off - flaw not reproduced (r1=%s r2=%s)"
    l1 ← is_reseeded f1.1
    fail_if l1 "%s: reseed line present despite fork_reseed=0"
    l2 ← is_reseeded f2.1
    fail_if l2 "%s: reseed line present despite fork_reseed=0"
    shut_down L (cmd L) f1.0
    shut_down L (cmd L) f2.0

  -- 2: with it they differ.
  unfoldable pub fixed : String → Script X (Unit {0})
  unfolding fork first_read reads_fail is_reseeded fail_if shut_down
  fixed base = do
    f1 ← fork "f1" base ""
    f2 ← fork "f2" base ""
    r1 ← first_read f1.0
    r2 ← first_read f2.0
    fail_if (reads_fail size false r1 r2).0 "fix-phase read failed (e1=%s e2=%s r1=%r)"
    fail_if (reads_fail size false r1 r2).1 "fix phase: siblings IDENTICAL with reseed on (r=%s)"
    l1 ← is_reseeded f1.1
    fail_if (not l1) "%s: log missing %r"
    l2 ← is_reseeded f2.1
    fail_if (not l2) "%s: log missing %r"
    shut_down L (cmd L) f1.0
    shut_down L (cmd L) f2.0

  -- "sync-check" in r and e == 0
  is_answer : String → String × Option ℤ → Bool
  is_answer text r = contains text r.0 && exit_is 0 r.1

  -- 3a: the connection is there before the stray frame.
  unfoldable pub attach_early : String → Script X (Unit {0})
  unfolding fork cmd_exit is_answer receive framed fail_if fail is_reseeded shut_down
  attach_early base = do
    f ← fork "o1" base ""
    r ← cmd_exit L f.0 "echo sync-check"
    (if is_answer "sync-check" r
        then pure tt
        else if contains "not found" r.0 || exit_is 127 r.1
        then (do
          next ← receive L f.0 (framed L.to_int)
          fail_if (not (is_answer "sync-check" (L.decode next.0, next.1)))
              "old-image early attach did not recover: %r exit %s")
        else fail "old-image early attach: unexpected first frame %r exit %s")
    l ← is_reseeded f.1
    fail_if (not l) "o1: host did not report the (blind) reseed send on an old image"
    shut_down L (cmd L) f.0

  -- 3b: the connection comes after it.
  unfoldable pub attach_late : String → Script X (Unit {0})
  unfolding fork_only sleep uc cmd_exit is_answer fail_if shut_down
  attach_late base = do
    d ← fork_only "o2" base ""
    sleep L 2_000_000
    s ← uc L (join d "c.sock")
    r ← cmd_exit L s "echo sync-check"
    r2 ← cmd_exit L s "echo second"
    fail_if (not (is_answer "sync-check" r && is_answer "second" r2))
        "old-image late attach framing corrupt: %r/%s then %r/%s"
    shut_down L (cmd L) s

  -- for f in os.listdir(NB + "/kernels"): ...; os.symlink(...)
  link_all : String → List String → Script X (Unit {0})
  unfolding act
  link_all dir [] = pure tt
  link_all dir (f ∷ fs) =
      if str_eq f "initramfs.cpio.gz" || str_eq f "rootfs"
      then link_all dir fs
      else (do act L (linked (join (P.nb <> "/kernels") f) (join dir f)); link_all dir fs)

  -- 3, if the image from before the handler is there; `listed` is os.listdir(NB + "/kernels").
  unfoldable pub old_image : List String → Script X (Unit {0})
  unfolding is_there act link_all bake_base attach_early attach_late
  old_image listed = do
    there ← is_there L (P.nb <> "/kernels/initramfs.cpio.gz.bak")
    (if there
        then (do
          act L (made_folder (join P.work "oldk"))
          link_all (join P.work "oldk") listed
          act L (
              linked (P.nb <> "/kernels/initramfs.cpio.gz.bak")
                (join (join P.work "oldk") "initramfs.cpio.gz"))
          base ← bake_base "ob" (join P.work "oldk")
          attach_early base
          attach_late base)
        else pure tt)

  any_failure : List String → Bool
  any_failure [] = false
  any_failure (m ∷ ms) = true

  -- The steps under `try`.
  unfoldable pub entropy_body : List String → Script X (Option ℕ)
  unfolding bake_base any_failure vulnerable fixed old_image
  entropy_body listed = do
    base ← bake_base "b" (P.nb <> "/kernels")
    failed ← gets (λ w. any_failure w.fails)
    (if failed then raise leaves else pure tt)
    vulnerable base
    fixed base
    old_image listed
    pure none

  -- main() of fork_entropy_proof.py
  unfoldable pub entropy_main : List String → Script X ℕ
  unfolding is_there fresh_work final catch_exit entropy_body stop_all verdict
  entropy_main listed = do
    built ← is_there L P.bin
    (if not built then pure 1 else (do
      fresh_work L P
      r ← final (catch_exit (entropy_body listed)) (stop_all L 400_000)
      verdict L r))
