-- ===== src/Tests/Collects.antt =====
-- The theorems on the collectors at a folder with two snapshots.
use nether.Prelude.Action.{pure}
use nether.Cli.{is_given, main}
use nether.Cli.Dry.{main_dry}
use nether.Prelude.{
  ℕ, String, ◌≡◌, ◌⊎◌, inr, refl, arith, true, false, none, some, List, [], ◌∷◌, Among, here, there,
}
use nether.Prelude.Dict.{lookup, erase}
use nether.Prelude.Outcome.{returned}
use nether.Os.{Files, str, remove}
use nether.Snap.{wsnap_header, pack_u32, unpack_u32}
use nether.Hashing.{sha256_file}
use nether.Manifest.{
  manifest_path, read_manifest, key_json, get, subscript, find_member, nether_build_id,
}
use nether.Manifest.Match.{equals_some_iff}
use nether.Gc.{sweep, reap, superseded, gc_superseded, stale, do_gc, reap_parks}
use nether.Gc.Parks.{IsOverdue, reap_parks_dry, reap_parks-only-IsOverdue, reap_parks-all-IsOverdue}
use nether.Gc.Bases.{IsStale, do_gc-only-IsStale, do_gc-all-IsStale}
use nether.Gc.Bases.Superseded.{
  IsSuperseded, gc_superseded-only-IsSuperseded, gc_superseded-all-IsSuperseded,
  gc_superseded-keeps,
}
use nether.Tests.Setup.{
  env, world, file, os, hash, old_key, files, both, both-Apart, b_ne-manifest_path, both-proper,
  texts_ne,
}

old_IsSuperseded : IsSuperseded os "/bases/b.snap" "/r.toml" files "/bases/a.snap"
unfolding manifest_path read_manifest lookup get find_member
old_IsSuperseded = record {
  other = texts_ne "/bases/a.snap" "/bases/b.snap" refl;
  has_manifest = refl;
  same_recipe = refl;
}

gc_superseded-all-IsSuperseded_example :
    (os.removable "/bases/a.snap" ≡ true
      → lookup "/bases/a.snap" (gc_superseded os "/bases" "/bases/b.snap" "/r.toml" files).1 ≡ none)
    × (os.removable (manifest_path "/bases/a.snap") ≡ true
        → lookup
            (manifest_path "/bases/a.snap")
            (gc_superseded os "/bases" "/bases/b.snap" "/r.toml" files).1
          ≡ none)
unfolding gc_superseded superseded sweep reap remove manifest_path read_manifest lookup erase get
    find_member
gc_superseded-all-IsSuperseded_example =
    gc_superseded-all-IsSuperseded os "/bases" "/bases/b.snap" "/r.toml" files both-Apart
      "/bases/a.snap" refl (there here) old_IsSuperseded

old_superseded :
    lookup "/bases/a.snap" (gc_superseded os "/bases" "/bases/b.snap" "/r.toml" files).1 ≡ none
old_superseded = gc_superseded-all-IsSuperseded_example.0 refl

gc_superseded-only-IsSuperseded_example :
    (s : String) × Among s both
    × IsSuperseded os "/bases/b.snap" "/r.toml" files s
    × (("/bases/a.snap" ≡ s) ⊎ ("/bases/a.snap" ≡ manifest_path s))
unfolding lookup
gc_superseded-only-IsSuperseded_example =
    gc_superseded-only-IsSuperseded os "/bases" "/bases/b.snap" "/r.toml" files both-Apart
      "/bases/a.snap" (λ same. absurd (ground (arith, old_superseded)))

gc_superseded-keeps_example :
    (lookup "/bases/b.snap" (gc_superseded os "/bases" "/bases/b.snap" "/r.toml" files).1
      ≡ lookup "/bases/b.snap" files)
    × (lookup
          (manifest_path "/bases/b.snap")
          (gc_superseded os "/bases" "/bases/b.snap" "/r.toml" files).1
        ≡ lookup (manifest_path "/bases/b.snap") files)
gc_superseded-keeps_example =
    gc_superseded-keeps os "/bases" "/bases/b.snap" "/r.toml" files both-Apart b_ne-manifest_path
      both-proper

-- The binary's hash is "h3", and the old base's manifest names "h0".
build : nether_build_id hash "/bin/nether" files ≡ returned "h3"
unfolding nether_build_id sha256_file lookup
build = refl

old_IsStale : IsStale os "h3" false files "/bases/a.snap"
unfolding manifest_path read_manifest lookup get subscript find_member
old_IsStale = inr (
  (λ h. cc),
  (
    key_json old_key,
    str "h0",
    refl,
    refl,
    (λ h. ground (arith, (equals_some_iff (str "h0") "h3").1 h)),
    (λ h. ground (arith, (equals_some_iff (str "h0") "unknown").1 h)),
  ),
)

gc_ran :
    (do_gc os hash "/bin/nether" "/bases" false files).0
    ≡ returned ("/bases/a.snap (stale: older nether build)" ∷ [])
unfolding do_gc nether_build_id sha256_file sweep stale manifest_path read_manifest lookup erase get
    subscript find_member remove reap
gc_ran = refl

do_gc-all-IsStale_example :
    (os.removable "/bases/a.snap" ≡ true
      → lookup "/bases/a.snap" (do_gc os hash "/bin/nether" "/bases" false files).1 ≡ none)
    × (os.removable (manifest_path "/bases/a.snap") ≡ true
        → lookup
            (manifest_path "/bases/a.snap")
            (do_gc os hash "/bin/nether" "/bases" false files).1
          ≡ none)
do_gc-all-IsStale_example =
    do_gc-all-IsStale os hash "/bin/nether" "/bases" false files both-Apart build "/bases/a.snap"
      gc_ran (there here) old_IsStale

old_collected : lookup "/bases/a.snap" (do_gc os hash "/bin/nether" "/bases" false files).1 ≡ none
old_collected = do_gc-all-IsStale_example.0 refl

do_gc-only-IsStale_example :
    (s : String) × Among s both
    × IsStale os "h3" false files s
    × (("/bases/a.snap" ≡ s) ⊎ ("/bases/a.snap" ≡ manifest_path s))
unfolding lookup
do_gc-only-IsStale_example =
    do_gc-only-IsStale os hash "/bin/nether" "/bases" false files both-Apart build "/bases/a.snap"
      (λ same. absurd (ground (arith, old_collected)))

-- A park that was written at 0, judged at 100 seconds with a TTL of 10.
abbrev parks : Files
parks = ("/bases/a.snap", file (wsnap_header 1) 0) ∷ []

old_IsOverdue : IsOverdue 10 100_000_000 parks "/bases/a.snap"
unfolding lookup wsnap_header pack_u32 unpack_u32
old_IsOverdue = record {
  file = file (wsnap_header 1) 0;
  found = refl;
  snapshot = record { long = omega arith; magic = refl; version = refl };
  park = refl;
  late = omega arith;
}

reap_parks-all-IsOverdue_example :
    (os.removable "/bases/a.snap" ≡ true
      → lookup "/bases/a.snap" (reap_parks os "/bases" 10 false 100_000_000 parks).1 ≡ none)
    × (os.removable (manifest_path "/bases/a.snap") ≡ true
        → lookup
            (manifest_path "/bases/a.snap")
            (reap_parks os "/bases" 10 false 100_000_000 parks).1
          ≡ none)
reap_parks-all-IsOverdue_example =
    reap_parks-all-IsOverdue os "/bases" 10 100_000_000 parks both-Apart "/bases/a.snap"
      (there here) old_IsOverdue

old_reaped : lookup "/bases/a.snap" (reap_parks os "/bases" 10 false 100_000_000 parks).1 ≡ none
old_reaped = reap_parks-all-IsOverdue_example.0 refl

reap_parks-only-IsOverdue_example :
    (s : String) × Among s both
    × IsOverdue 10 100_000_000 parks s
    × (("/bases/a.snap" ≡ s) ⊎ ("/bases/a.snap" ≡ manifest_path s))
unfolding lookup
reap_parks-only-IsOverdue_example =
    reap_parks-only-IsOverdue os "/bases" 10 100_000_000 parks both-Apart "/bases/a.snap"
      (λ same. absurd (ground (arith, old_reaped)))

reap_parks_dry_example :
    (lines : List (String × ℕ)) × ((reap_parks os "/bases" 10 true 100_000_000 parks).0
      ≡ returned lines)
    × ((reap_parks os "/bases" 10 true 100_000_000 parks).1 ≡ parks)
    × ((reap_parks os "/bases" 10 false 100_000_000 parks).0 ≡ returned lines)
reap_parks_dry_example = reap_parks_dry os "/bases" 10 100_000_000 parks both-Apart

-- The arguments of a dry run of the park reaper.
abbrev dry_arguments : List String
dry_arguments = "--dir" ∷ "/bases" ∷ "--parks" ∷ "--ttl-s" ∷ "5" ∷ "--dry-run" ∷ []

main_dry_example :
    (main env "/kernels" "/tmp" (λ s. some 5) (pure 0) ("gc" ∷ dry_arguments) world).1 ≡ world
unfolding is_given
main_dry_example =
    main_dry env "/kernels" "/tmp" (λ s. some 5) (pure 0) dry_arguments world refl refl
