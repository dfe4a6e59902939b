-- ===== src/Tests/Selfs.antt =====
-- The self-test of scripts/bake.py at a host on which it passes.
use text.Mathlib.Text.{starts_with}
use nether.Prelude.{
  String, ◌<>◌, str_eq, ◌≡◌, refl, not, ◌&&◌, none, some, List, [], ◌∷◌, ◌==◌, if◌then◌else◌,
}
use nether.Prelude.Dict.{lookup, insert, erase}
use nether.Prelude.Outcome.{returned}
use nether.Os.{Bytes, Files, Json, obj, Os, remove}
use nether.Gc.{reap}
use nether.Snap.{read_snap_kind, unpack_u32}
use nether.Manifest.{manifest_json, find_member, equals_text}
use nether.Vm.{World, contains}
use nether.Selftest.{selftest, test_key}
use nether.Tests.Setup.{host, bare_os}

-- The paths below a folder that are no manifests.
paths_in : String → Files → List String
paths_in dir [] = []
paths_in dir ((p, f) ∷ fs) =
    let rest = paths_in dir fs in
    if starts_with p (dir <> "/") && not (contains ".manifest" p) then p ∷ rest else rest

-- The text of a manifest is one byte: 2 for the one made at "t0", and 1 for the other.
brief : Json → Bytes
brief (obj m) = if equals_text (find_member "created" m) (some "t0") then 2 ∷ [] else 1 ∷ []
brief j = 1 ∷ []

abbrev disk : Os
disk = record bare_os {
  basename = λ p.
      if str_eq p "/d/old.snap"
      then "old.snap"
      else if str_eq p "/d/parks/old.park.snap"
      then "old.park.snap"
      else p;
  glob = λ fs dir. paths_in dir fs;
  dumps = brief;
  loads = λ b. elim b [
    | [] ↦ none
    | x ∷ xs ↦
        if x == 1
        then some (manifest_json bare_os "/d/a.snap" test_key "/r.toml" "t")
        else some (
            manifest_json bare_os "/d/old.snap" (record test_key { nether_build = "b0" }) "/r.toml"
              "t0")
  ];
}

abbrev start : World
start = record { files = []; clock = 1_000_000_000_000; inbox = []; trace = [] }

selftest_passes : (selftest disk host "/d" start).0 ≡ returned 0
unfolding selftest lookup insert erase find_member paths_in brief reap remove read_snap_kind
    unpack_u32
selftest_passes = refl
