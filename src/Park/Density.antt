-- ===== src/Park/Density.antt =====
-- scripts/park_density_proof.py: a fleet of forks is parked, each with its own broker, and each is woken
-- with its own reply. What is printed and measured only to be printed is left out.
use text.Mathlib.Text.{starts_with}
use nether.Prelude.{
  ℕ, zero, suc, ◌+◌, String, ◌<>◌, str_eq, Bool, true, false, not, Option, none, some, List, [],
  ◌∷◌, ◌++◌, ◌==◌, length, if◌then◌else◌,
}
use nether.Prelude.Dict.{Dict, lookup}
use nether.Prelude.Outcome.{returned}
use nether.Prelude.Action.{pure, raise, ◌>>=◌, ◌>>◌}
use nether.Errors.{os_error}
use nether.Vm.{contains}
use nether.Lab.Reads.{exception}
use nether.Lab.{
  Site, Lab, Script, Trace, removed_tree, made_folder, bound, awaited, wrote, linked, gets, fail,
  fail_if, final, act, is_there, sleep, cmd, cat, start, stop_all, after_act, wait_sock, uc, until,
  wait_or_raise, ready, shut_down, verdict,
}
use nether.Serve.{Place}
use nether.Park.{left_itself}

-- A broker, but for its listener: whether its two events are set, and its errors.
pub record Broker : Type 0 where
  pub parked : Bool
  pub resumed : Bool
  pub errors : List String

abbrev pub fresh : Broker
fresh = record { parked = false; resumed = false; errors = [] }

-- What the thread of a connection comes to, where it raises nothing, from its preamble and its
-- request: the broker, and the reply if it sends one.
unfoldable pub serve : String → String → String → Broker → Broker × Option String
serve tag pre req b =
    if contains "resume=1" pre
    then (record b { resumed = true }, some (("REPLY-FOR-" <> tag) <> "\n"))
    else if contains tag req
    then (record b { parked = true }, none)
    else (record b { errors = b.errors ++ ("%s: wrong tag in request %r" ∷ []) }, none)

-- `b.parked` for the broker of the tag
is_parked : String → Dict Broker → Bool
is_parked tag bs = elim (lookup tag bs) [ none ↦ false | some b ↦ b.parked ]

-- for b in brokers.values(): fails.extend(b.errors)
all_errors : Dict Broker → List String
all_errors [] = []
all_errors ((tag, b) ∷ bs) = b.errors ++ all_errors bs

-- `two` is "%02d" of a number, `request` is slow_req, `alive` the words of pgrep's output, and `parks`
-- what the glob gives.
module _ (L : Site (Dict Broker)) (P : Place) (two : ℕ → String) (request : String → String)
    (alive parks : Trace → List String) where
  open L use {join}

  tag_of : ℕ → String
  tag_of i = "vm-" <> two i

  -- brokers[tag] = Broker(es, tag)
  add_broker : String → Script (Dict Broker) (Unit {0})
  add_broker tag w = (returned tt, record w { platform = (tag, fresh) ∷ w.platform })

  fork_conf : String → String → String → String → Script (Dict Broker) (Unit {0})
  unfolding act
  fork_conf dir snap sock esock = act L (
      wrote (join dir "nether.conf") (
        ((((("restore=1\nrestore_from=" <> snap) <> "\ncontrol_socket=") <> sock)
            <> "\negress_socket=")
          <> esock)
        <> "\n"))

  -- brokers[tag].parked.wait(15)
  wait_parked : String → Script (Dict Broker) Bool
  unfolding act is_parked
  wait_parked tag = do act L (awaited tag); gets (λ w. is_parked tag w.platform)

  -- The request, and the park of a fork that is up.
  park_one : ℕ → ℕ → String → Script (Dict Broker) (Unit {0})
  unfolding cmd wait_parked fail sleep left_itself
  park_one p vs tag = do
    cmd L vs (request tag)
    ok ← wait_parked tag
    (if not ok then fail "%s request never reached the broker" else (do
      sleep L 600_000
      rep ← cmd L vs "__park__ p.snap"
      (if not (starts_with rep "OK parked")
          then fail "%s park failed: %r"
          else left_itself L p "%s park exit != 0" "%s did not exit after park")))

  -- A round of the fleet's loop.
  fleet_one : String → ℕ → Script (Dict Broker) (Unit {0})
  unfolding act add_broker fork_conf start wait_sock fail uc park_one tag_of
  fleet_one snap i = do
    act L (made_folder (join P.work (tag_of i)))
    act L (bound (join P.work (("e-" <> two i) <> ".sock")))
    add_broker (tag_of i)
    fork_conf (join P.work (tag_of i)) snap "v.sock" (join P.work (("e-" <> two i) <> ".sock"))
    p ← start L (join P.work (tag_of i))
    up ← wait_sock L (join (join P.work (tag_of i)) "v.sock") 30_000_000 300
    (if not up
        then fail "%s never came up"
        else (do vs ← uc L (join (join P.work (tag_of i)) "v.sock"); park_one p vs (tag_of i)))

  -- for i in range(i, i + n)
  fleet : String → ℕ → ℕ → Script (Dict Broker) (Unit {0})
  unfolding fleet_one
  fleet snap zero i = pure tt
  fleet snap (suc n) i = do fleet_one snap i; fleet snap n (i + 1)

  -- while time.time() - t0 < 20: got = cat(...); if got: break
  await_text : ℕ → ℕ → Script (Dict Broker) String
  unfolding until cat cmd
  await_text t0 ws = do
    r ←
        until L t0 20_000_000 300
          (do got ← cat L (cmd L) ws "/tmp/reply"; pure (if str_eq got "" then none else some got))
    pure (elim r [ none ↦ "" | some got ↦ got ])

  -- The reply of a woken fork that is up, and its park's file.
  check_one : ℕ → ℕ → ℕ → Script (Dict Broker) (Unit {0})
  unfolding await_text fail_if is_there shut_down tag_of
  check_one t0 ws i = do
    got ← await_text t0 ws
    fail_if (not (str_eq got ("REPLY-FOR-" <> tag_of i))) "%s cross-wire: got %r want %r"
    there ← is_there L (join (join P.work (tag_of i)) "p.snap")
    fail_if there "%s park not consumed"
    shut_down L (cmd L) ws

  -- A round of the loop that wakes each.
  wake_one : ℕ → Script (Dict Broker) (Unit {0})
  unfolding act fork_conf start wait_sock fail uc check_one tag_of
  wake_one i = do
    act L (made_folder (join P.work ("w-" <> two i)))
    fork_conf (join P.work ("w-" <> two i)) (join (join P.work (tag_of i)) "p.snap") "w.sock"
        (join P.work (("e-" <> two i) <> ".sock"))
    t0 ← gets (λ w. w.clock)
    start L (join P.work ("w-" <> two i))
    up ← wait_sock L (join (join P.work ("w-" <> two i)) "w.sock") 30_000_000 300
    (if not up
        then fail "%s wake never came up"
        else (do ws ← uc L (join (join P.work ("w-" <> two i)) "w.sock"); check_one t0 ws i))

  wake_fleet : ℕ → ℕ → Script (Dict Broker) (Unit {0})
  unfolding wake_one
  wake_fleet zero i = pure tt
  wake_fleet (suc n) i = do wake_one i; wake_fleet n (i + 1)

  -- Step 3: no process, and a file for each.
  only_files : ℕ → Script (Dict Broker) (Unit {0})
  unfolding sleep fail_if
  only_files n = do
    sleep L 500_000
    ps ← gets (λ w. length (alive w.trace))
    fs ← gets (λ w. length (parks w.trace))
    fail_if (not (ps == 0)) "%d nether processes still alive while fleet parked"
    fail_if (not (fs == n)) "expected %d park files, found %d"

  -- Step 1, on the base's connection: the snapshot, whose size is asked for.
  bake_base : ℕ → ℕ → String → Script (Dict Broker) (Unit {0})
  unfolding ready cmd fail_if wait_or_raise is_there
  bake_base bp s snap = do
    ready L (cmd L) s
    rep ← cmd L s "__snapshot__ base.snap"
    fail_if (not (contains "OK" rep)) "base bake failed: %r"
    cmd L s "__shutdown__"
    wait_or_raise L bp
    there ← is_there L snap
    (if there then pure tt else raise (exception os_error))

  note_errors : Script (Dict Broker) (Unit {0})
  unfolding all_errors
  note_errors w = (returned tt, record w { fails = w.fails ++ all_errors w.platform })

  -- The steps under `try`, for N = n.
  unfoldable pub density_body : ℕ → String → Script (Dict Broker) (Option ℕ)
  unfolding start wait_sock uc bake_base fleet only_files wake_fleet note_errors
  density_body n base = do
    bp ← start L base
    up ← wait_sock L (join base "c.sock") 40_000_000 300
    (if not up then pure (some 1) else (do
      s ← uc L (join base "c.sock")
      bake_base bp s (join base "base.snap")
      fleet (join base "base.snap") n 1
      only_files n
      wake_fleet n 1
      note_errors
      pure none))

  -- finally: the processes are stopped, and the work folder is removed
  clean_up : Lab (Dict Broker) → Lab (Dict Broker)
  unfolding stop_all after_act
  clean_up w = after_act L (removed_tree P.work) (stop_all L 500_000 w)

  -- main() of park_density_proof.py, for N = n
  unfoldable pub density_main : ℕ → Script (Dict Broker) ℕ
  unfolding is_there act final density_body clean_up verdict
  density_main n = do
    built ← is_there L P.bin
    (if not built then pure 1 else (do
      act L (removed_tree P.work)
      act L (made_folder P.work)
      act L (made_folder (join P.work "base"))
      act L (linked (P.nb <> "/kernels") (join (join P.work "base") "kernels"))
      act L (bound (join P.work "e-base.sock"))
      act L (
          wrote (join (join P.work "base") "nether.conf") (
            ("control_socket=c.sock\negress_socket=" <> join P.work "e-base.sock")
            <> "\negress_port=9090\nram_mb=512\ncpus=2\n"))
      r ← final (density_body n (join P.work "base")) clean_up
      verdict L r))
