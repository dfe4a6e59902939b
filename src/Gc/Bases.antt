-- ===== src/Gc/Bases.antt =====
-- `do_gc` and `gc_superseded` of scripts/bake.py: which bases they take away.
pub mod Superseded
use nether.Prelude.{
  String, ◌<>◌, ◌≡◌, sym, ◌∙◌, ◌≢◌, ◌⊎◌, inl, inr, Bool, true, false, Option, none, some, List,
  arith, Among, Bool-cases,
}
use nether.Prelude.Outcome.{Outcome, returned, >>=-returns}
use nether.Prelude.Dict.{lookup}
use nether.Os.{Files, Json, null, str, Hash, Os}
use nether.Errors.{Exc}
use nether.Manifest.{manifest_path, read_manifest, equals_text, get, subscript, nether_build_id}
use nether.Manifest.Match.{equals_none_iff, equals_some_iff}
use nether.Gc.{foreign_build, stale, sweep, do_gc}
use nether.Gc.Sweep.{Apart, IsLocal, sweep-reports}
use nether.Gc.Reported.{sweep-only_reported, sweep-all_reported}

-- The manifest names a build that is neither the current one nor "unknown".
abbrev pub IsForeign : String → Json → Type 0
IsForeign build m =
    (key b : Json) × (subscript "key" m ≡ returned key)
    × (get "nether_build" key ≡ returned b)
    × (b ≢ str build)
    × (b ≢ str "unknown")

foreign_build-IsForeign :
    (build : String) (m : Json) → foreign_build build m ≡ returned true → IsForeign build m
unfolding foreign_build
foreign_build-IsForeign build m h =
    let (key, k, rest) = >>=-returns (subscript "key" m) _ h in
    let (b, g, last) = >>=-returns (get "nether_build" key) _ rest in
    (
      key,
      b,
      k,
      g,
      λ e. ground (arith, (equals_some_iff b build).1 e),
      λ e. ground (arith, (equals_some_iff b "unknown").1 e),
    )

IsForeign-foreign_build :
    (build : String) (m : Json) → IsForeign build m → foreign_build build m ≡ returned true
unfolding foreign_build
IsForeign-foreign_build build m (key, b, k, g, x, y) =
    rw (k, g) (ground (arith, (equals_some_iff b build).0, (equals_some_iff b "unknown").0))

module _ (o : Os) (build : String) (orphans : Bool) where
  -- A base that `do_gc` takes for garbage: with orphans asked for, one without a readable manifest,
  -- and else one whose manifest is of another build.
  abbrev pub IsStale : Files → String → Type 0
  IsStale fs s =
      ((orphans ≡ true) × (read_manifest o fs s ≡ null))
      ⊎ ((read_manifest o fs s ≢ null) × IsForeign build (read_manifest o fs s))

  stale-IsLocal : IsLocal (stale o build orphans)
  unfolding stale read_manifest
  stale-IsLocal fs fs' s e m = rw m

  stale-IsStale :
      (fs : Files) (s : String) {line : String}
      → stale o build orphans fs s ≡ returned (some line)
      → IsStale fs s
  unfolding stale
  stale-IsStale fs s h = elim (Bool-cases (equals_text (read_manifest o fs s) none)) [
    | inl missing ↦ inl (ground arith, (equals_none_iff (read_manifest o fs s)).0 missing)
    | inr readable ↦ inr (
      λ e. ground (arith, (equals_none_iff (read_manifest o fs s)).1 e),
      foreign_build-IsForeign build (read_manifest o fs s) (ground arith),
    )
  ]

  IsStale-stale :
      (fs : Files) (s : String)
      → IsStale fs s
      → (line : String) × (stale o build orphans fs s ≡ returned (some line))
  unfolding stale
  IsStale-stale fs s (inl (asked, missing)) =
      (o.basename s <> " (orphan: no manifest)", rw (missing, asked))
  IsStale-stale fs s (inr (readable, foreign)) = (
    o.basename s <> " (stale: older nether build)",
    ground (
      arith,
      IsForeign-foreign_build build (read_manifest o fs s) foreign,
      equals_none_iff (read_manifest o fs s),
    ),
  )

module _ (o : Os) (H : Hash) (bin bases_dir : String) (orphans : Bool) (fs : Files) {build : String}
    (apart : Apart (o.glob fs bases_dir)) (id : nether_build_id H bin fs ≡ returned build) where
  abbrev judge : Files → String → Outcome Exc (Option String)
  judge = stale o build orphans

  do_gc-sweep : do_gc o H bin bases_dir orphans fs ≡ sweep o judge false (o.glob fs bases_dir) fs
  unfolding do_gc
  do_gc-sweep = rw (id, do_gc)

  -- Only stale bases go: a path that a run of do_gc changes, also one that raises in the middle, is
  -- a listed stale base or its manifest, where the binary's id is read, and the listing gives no path
  -- twice and no manifest of a listed path.
  pub do_gc-only-IsStale :
      (j : String)
      → lookup j (do_gc o H bin bases_dir orphans fs).1 ≢ lookup j fs
      → (s : String) × Among s (o.glob fs bases_dir)
        × IsStale o build orphans fs s
        × ((j ≡ s) ⊎ (j ≡ manifest_path s))
  do_gc-only-IsStale j changed =
      let (s, line, m, q, r) =
        sweep-only_reported o judge (stale-IsLocal o build orphans) fs (o.glob fs bases_dir) apart j
          (rw do_gc-sweep at changed) in
      (s, m, stale-IsStale o build orphans fs s q, r)

  -- All stale bases go: after a run of do_gc that returns, a listed stale base is gone if it may be
  -- removed, and so is its manifest if that may be, where the binary's id is read, and the listing
  -- gives no path twice and no manifest of a listed path.
  pub do_gc-all-IsStale :
      (s : String) {lines : List String}
      → (do_gc o H bin bases_dir orphans fs).0 ≡ returned lines
      → Among s (o.glob fs bases_dir)
      → IsStale o build orphans fs s
      → (o.removable s ≡ true → lookup s (do_gc o H bin bases_dir orphans fs).1 ≡ none)
        × (o.removable (manifest_path s) ≡ true
            → lookup (manifest_path s) (do_gc o H bin bases_dir orphans fs).1 ≡ none)
  do_gc-all-IsStale s ran m p = rw do_gc-sweep (
      sweep-all_reported o judge (stale-IsLocal o build orphans) fs (o.glob fs bases_dir) apart s m
        (IsStale-stale o build orphans fs s p).1
        (sym (sweep-reports o judge (stale-IsLocal o build orphans) false _ fs apart)
          ∙ (rw do_gc-sweep at ran)))
