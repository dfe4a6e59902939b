-- ===== src/Park/Multi.antt =====
-- scripts/park_multi_proof.py: four requests in flight are parked and revived, each with its own reply.
pub mod Stops
use text.Mathlib.Text.{starts_with}
use nether.Prelude.{
  ℕ, zero, suc, ◌+◌, ◌/◌, String, ◌<>◌, str_eq, Bool, true, false, not, Option, none, some, List,
  [], ◌∷◌, ◌++◌, ◌==◌, ltb, leb, length, if◌then◌else◌,
}
use nether.Prelude.Dict.{Dict, lookup}
use nether.Prelude.Outcome.{returned}
use nether.Prelude.Action.{pure, raise, ◌>>=◌, ◌>>◌}
use nether.Vm.{contains}
use nether.Lab.Reads.{leaves}
use nether.Lab.{
  Site, Script, removed_tree, made_folder, gets, fail, fail_if, final, catch_exit, act, is_there,
  read_text, sleep, cmd, cat, until, ready, shut_down, stop_all, verdict,
}
use nether.Serve.{Place}
use nether.Park.{egress_base, boot, wake_up, fork_conf, left_itself}
use nether.Park.Broker.{Shared, tags}

-- want
abbrev pub wanted : String → String
wanted g = "REPLY-FOR-" <> g

-- b in xs
is_in : String → List String → Bool
is_in t [] = false
is_in t (u ∷ us) = if str_eq t u then true else is_in t us

-- len(set(xs))
unfoldable pub count_distinct : List String → ℕ
unfolding is_in
count_distinct [] = 0
count_distinct (t ∷ ts) = let n = count_distinct ts in if is_in t ts then n else n + 1

tags_of : {A : Type 0} → List (A × String) → List String
tags_of [] = []
tags_of (e ∷ m) = e.1 ∷ tags_of m

-- `got.get(g, "") != want` for each tag: the failures of the comparison
unfoldable pub mixups : Dict String → List String → List String
mixups got [] = []
mixups got (g ∷ gs) =
    let rest = mixups got gs in
    let v : String = elim (lookup g got) [ none ↦ "" | some v ↦ v ] in
    if str_eq v (wanted g) then rest else "conn mixup: /tmp/r-%s = %r, want %r" ∷ rest

module _ (L : Site Shared) (P : Place) (req4 : String) where
  open L use {join}

  note_all : List String → Script Shared (Unit {0})
  note_all fs w = (returned tt, record w { fails = w.fails ++ fs })

  -- for g in TAGS: if g not in got: v = cat(...); if v: got[g] = v
  gather_round : ℕ → List String → Dict String → Script Shared (Dict String)
  unfolding cat cmd
  gather_round fs [] got = pure got
  gather_round fs (g ∷ gs) got = elim (lookup g got) [
    | some v ↦ gather_round fs gs got
    | none ↦ do
      v ← cat L (cmd L) fs ("/tmp/r-" <> g)
      gather_round fs gs (if str_eq v "" then got else (g, v) ∷ got)
  ]

  -- while time.time() < deadline and len(got) < len(TAGS). The fuel bounds the rounds.
  gather : ℕ → ℕ → ℕ → Dict String → Script Shared (Dict String)
  unfolding gather_round sleep
  gather zero deadline fs got w = (returned got, w)
  gather (suc fuel) deadline fs got w =
      let more = (do got' ← gather_round fs tags got; sleep L 300; gather fuel deadline fs got') in
      if leb deadline w.clock
      then (returned got, w)
      else if ltb (length got) (length tags)
      then more w
      else (returned got, w)

  -- got, from the time of the restore, for 30 seconds
  gather_for : ℕ → ℕ → ℕ → Script Shared (Dict String)
  unfolding gather
  gather_for timeout t_r fs = gather (timeout / 300 + 2) (t_r + timeout) fs []

  -- Step 1: the four requests are parked at the broker, or the script leaves.
  park_all : ℕ → Script Shared (Unit {0})
  unfolding cmd until fail count_distinct tags_of fail_if sleep
  park_all s = do
    cmd L s req4
    t0 ← gets (λ w. w.clock)
    until L t0 20_000_000 300
        (gets (λ w. if ltb (length w.platform.parked) (length tags) then none else some tt))
    n ← gets (λ w. length w.platform.parked)
    (if ltb n (length tags) then (do fail "only %d/%d conns parked"; raise leaves) else (do
      distinct ← gets (λ w. count_distinct (tags_of w.platform.parked))
      fail_if (not (distinct == length tags)) "tag collision in parked conns"
      sleep L 1_000_000))

  -- Step 3: the wake, and each reply.
  wake_all : String → String → String → Script Shared (Unit {0})
  unfolding fork_conf wake_up gather_for read_text fail_if note_all mixups cat cmd shut_down
  wake_all base fork esock = do
    fork_conf L fork (join base "multi.snap") "f.sock" esock
    t_r ← gets (λ w. w.clock)
    f ← wake_up L fork "f.sock"
    got ← gather_for 30_000_000 t_r f.1
    flog ← read_text L (join fork "fork.log")
    fail_if (not (contains "revived 4/4" flog)) "fork log missing 'revived %d/%d' (%s)"
    note_all (mixups got tags)
    log ← cat L (cmd L) f.1 "/tmp/req.log"
    fail_if (not (contains "all-done" log)) "guest requester did not run to completion"
    shut_down L (cmd L) f.1

  -- The steps under `try`.
  unfoldable pub multi_body : String → String → String → Script Shared (Option ℕ)
  unfolding boot ready park_all cmd fail_if left_itself wake_all
  multi_body base fork esock = do
    b ← boot L base
    ready L (cmd L) b.1
    park_all b.1
    rep ← cmd L b.1 "__park__ multi.snap"
    fail_if (not (starts_with rep "OK parked")) "__park__ failed: %r"
    left_itself L b.0 "park exit != 0" "no self-exit after park"
    wake_all base fork esock
    pure none

  -- main() of park_multi_proof.py
  unfoldable pub multi_main : Script Shared ℕ
  unfolding is_there act egress_base final catch_exit multi_body stop_all note_all verdict
  multi_main = do
    built ← is_there L P.bin
    (if not built then pure 1 else (do
      act L (removed_tree P.work)
      act L (made_folder (join P.work "b"))
      act L (made_folder (join P.work "f"))
      egress_base L P (join P.work "b") (join P.work "e.sock")
      r ←
          final (catch_exit (multi_body (join P.work "b") (join P.work "f") (join P.work "e.sock")))
            (stop_all L 400_000)
      errors ← gets (λ w. w.platform.errors)
      note_all errors
      verdict L r))
