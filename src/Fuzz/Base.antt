-- ===== src/Fuzz/Base.antt =====
-- scripts/fuzz_restore.py: the snapshot that it makes mutants of, and its main as a whole.
pub mod Ends
use nether.Prelude.{ℕ, String, ◌<>◌, not, ◌&&◌, Option, none, some, ltb, if◌then◌else◌}
use nether.Prelude.Int.{ℤ}
use nether.Prelude.Outcome.{returned, raised}
use nether.Prelude.Action.{pure, lift, ◌>>=◌, ◌>>◌}
use nether.Os.{Bytes}
use nether.Errors.{os_error}
use nether.Vm.{contains}
use nether.Lab.Reads.{exception}
use nether.Lab.Reads.Framed.{as_stop}
use nether.Lab.{
  Site, Script, Trace, removed_tree, made_folder, linked, wrote, gets, final, act, after_act,
  is_there, launch, uc, cmd, meta, await_path, ready, shut_down, wait_or_raise,
}
use nether.Serve.{Place}
use nether.Fuzz.{Random, fuzz}

-- `content` is what a file holds, none where it cannot be opened.
module _ {X : Type 0} (L : Site X) (P : Place) (content : Trace → String → Option Bytes) where
  open L use {join}

  -- bake_base()
  unfoldable pub bake_base : Script X (Option String)
  unfolding act launch await_path uc ready cmd meta shut_down wait_or_raise is_there
  bake_base = do
    act L (made_folder (join P.work "base"))
    act L (linked (P.nb <> "/kernels") (join (join P.work "base") "kernels"))
    act L (
        wrote (join (join P.work "base") "nether.conf")
          "control_socket=c.sock\nram_mb=512\ncpus=2\n")
    p ← launch L (join P.work "base")
    t0 ← gets (λ w. w.clock)
    await_path L (join (join P.work "base") "c.sock") t0 40_000_000 100_000
    s ← uc L (join (join P.work "base") "c.sock")
    ready L (cmd L) s
    rep ← meta L s "__snapshot__ base.snap"
    shut_down L (cmd L) s
    wait_or_raise L p
    there ← is_there L (join (join P.work "base") "base.snap")
    pure (if contains "OK" rep && there then some (join (join P.work "base") "base.snap") else none)

  -- open(p, "rb").read()
  read_bytes : String → Script X Bytes
  read_bytes p w = elim (content w.trace p) [
    | none ↦ (raised (exception os_error), w)
    | some b ↦ (returned b, w)
  ]

  -- The folder in which the binary validates.
  parse_folder : Script X (Unit {0})
  unfolding act
  parse_folder = do
    act L (made_folder (join P.work "v"))
    act L (linked (P.nb <> "/kernels") (join (join P.work "v") "kernels"))

  -- The folder of the live restores.
  live_folder : ℕ → Script X (Unit {0})
  unfolding act
  live_folder live =
      if ltb 0 live
      then (do
        act L (made_folder (join P.work "r"))
        act L (linked (P.nb <> "/kernels") (join (join P.work "r") "kernels")))
      else pure tt

  module _ (validate restore : Bytes → Option (ℤ × String)) (show : ℕ → String) (R : Random)
      (live : ℕ) (seed : R.State) where
    -- The steps with the snapshot's bytes, and with its path, if there is one.
    with_bytes : Bytes → Script X ℕ
    unfolding parse_folder live_folder fuzz
    with_bytes good = do
      parse_folder
      live_folder live
      lift (as_stop (fuzz validate restore show R live (some good) seed).0)

    with_snapshot : Option String → Script X ℕ
    unfolding read_bytes with_bytes
    with_snapshot none = pure 1
    with_snapshot (some p) = do good ← read_bytes p; with_bytes good

    -- main(), from a bake_base, with the runs of the binary, the live restores and the state of the
    -- generator
    main_over : Script X (Option String) → Script X ℕ
    unfolding is_there act final with_snapshot after_act
    main_over baking = do
      built ← is_there L P.bin
      (if not built then pure 1 else (do
        act L (removed_tree P.work)
        act L (made_folder P.work)
        final (do snap ← baking; with_snapshot snap) (after_act L (removed_tree P.work))))

    unfoldable pub fuzz_main : Script X ℕ
    unfolding main_over bake_base
    fuzz_main = main_over bake_base
