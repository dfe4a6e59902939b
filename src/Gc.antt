-- ===== src/Gc.antt =====
-- scripts/bake.py: the garbage collectors over *.snap files. `gc_superseded` runs after a bake,
-- `do_gc` is the command `gc`, and `reap_parks` is the command `gc --parks`. A collector returns
-- the list that it reports; a missing member of a manifest raises, and what was reaped stays so.
pub mod Sweep
pub mod Reported
pub mod Parks
pub mod Bases
use nether.Prelude.{
  ℕ, ◌+◌, ◌-◌, ◌*◌, ◌/◌, String, ◌<>◌, str_eq, Bool, false, not, ◌||◌, Option, none, some, List, [],
  ◌∷◌, ◌==◌, leb, if◌then◌else◌,
}
use nether.Prelude.Outcome.{Outcome, returned, raised, ◌>>=◌}
use nether.Prelude.Action.{Action}
use nether.Prelude.Dict.{lookup}
use nether.Os.{File, Files, Json, Hash, Os, remove}
use nether.Errors.{Exc}
use nether.Snap.{read_snap_kind, snap_kind_park}
use nether.Manifest.{
  manifest_path, read_manifest, truthy, get, subscript, equals_text, nether_build_id,
}

-- An action on the file system that may raise.
abbrev pub FileAction : Type 0 → Type 0
FileAction A = Action Files Exc A

-- `reaped.append(line)` before the later rounds.
report : {L : Type 0} → L → Outcome Exc (List L) → Outcome Exc (List L)
report line r = do more ← r; returned (line ∷ more)

is_park : Option ℕ → Bool
is_park none = false
is_park (some kind) = kind == snap_kind_park

-- m["key"].get("nether_build") not in (build, "unknown")
unfoldable pub foreign_build : String → Json → Outcome Exc Bool
foreign_build build m = do
  key ← subscript "key" m
  b ← get "nether_build" key
  returned (not (equals_text b (some build) || equals_text b (some "unknown")))

module _ (o : Os) where
  unfoldable pub reap : String → Files → Files
  reap snap fs = remove o (manifest_path snap) (remove o snap fs)

  -- The loop that the collectors share. A round judges its path by the files as they are then:
  -- `continue`, or a line to report and a file to reap. A dry run reports and reaps nothing.
  unfoldable pub sweep :
      {L : Type 0}
      → (Files → String → Outcome Exc (Option L))
      → Bool
      → List String
      → FileAction (List L)
  unfolding report
  sweep judge dry [] fs = (returned [], fs)
  sweep judge dry (snap ∷ snaps) fs = elim (judge fs snap) [
    | raised e ↦ (raised e, fs)
    | returned none ↦ sweep judge dry snaps fs
    | returned (some line) ↦
        let (r, fs') = sweep judge dry snaps (if dry then fs else reap snap fs) in
        (report line r, fs')
  ]

  -- A round of `gc_superseded`; `keep` is absolute.
  unfoldable pub superseded : String → String → Files → String → Outcome Exc (Option String)
  superseded keep recipe fs snap =
      if str_eq (o.abspath snap) keep || not (truthy (read_manifest o fs snap))
      then returned none
      else do
        r ← get "recipe" (read_manifest o fs snap)
        returned (if equals_text r (some recipe) then some (o.basename snap) else none)

  unfoldable pub gc_superseded : String → String → String → FileAction (List String)
  unfolding sweep superseded
  gc_superseded bases_dir keep recipe fs =
      sweep (superseded (o.abspath keep) recipe) false (o.glob fs bases_dir) fs

  -- A round of `do_gc`.
  unfoldable pub stale : String → Bool → Files → String → Outcome Exc (Option String)
  unfolding foreign_build
  stale build orphans fs snap =
      if equals_text (read_manifest o fs snap) none
      then returned (if orphans then some (o.basename snap <> " (orphan: no manifest)") else none)
      else do
        old ← foreign_build build (read_manifest o fs snap)
        returned (if old then some (o.basename snap <> " (stale: older nether build)") else none)

  -- The lines that are printed; the status is 0.
  unfoldable pub do_gc : Hash → String → String → Bool → FileAction (List String)
  unfolding sweep stale nether_build_id
  do_gc H bin bases_dir orphans fs = elim (nether_build_id H bin fs) [
    | raised e ↦ (raised e, fs)
    | returned build ↦ sweep (stale build orphans) false (o.glob fs bases_dir) fs
  ]

  -- `now` and the mtimes are in microseconds; `ttl_s` is not negative.
  aged : ℕ → ℕ → String → Option File → Option (String × ℕ)
  aged ttl_s now snap none = none
  aged ttl_s now snap (some f) =
      if leb now (f.mtime + ttl_s * 1_000_000)
      then none
      else some (o.basename snap, (now - f.mtime) / 1_000_000)

  -- A round of `reap_parks`.
  unfoldable pub expired : ℕ → ℕ → Files → String → Outcome Exc (Option (String × ℕ))
  unfolding aged is_park
  expired ttl_s now fs snap =
      returned
        (if is_park (read_snap_kind fs snap) then aged ttl_s now snap (lookup snap fs) else none)

  unfoldable pub reap_parks : String → ℕ → Bool → ℕ → FileAction (List (String × ℕ))
  unfolding sweep expired
  reap_parks parks_dir ttl_s dry_run now fs =
      sweep (expired ttl_s now) dry_run (o.sorted (o.glob fs parks_dir)) fs
