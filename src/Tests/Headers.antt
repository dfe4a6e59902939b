-- ===== src/Tests/Headers.antt =====
-- The theorems on snapshot headers, hashes and the manifest's key at small files.
use nether.Prelude.{◌≡◌, ◌↔◌, refl, true, some, [], ◌∷◌, ◌++◌}
use nether.Prelude.Dict.{lookup}
use nether.Prelude.Outcome.{returned}
use nether.Os.{File, Files}
use nether.Snap.{wsnap_header, wsnap2_header, unpack_u32, read_snap_kind}
use nether.Snap.Header.{IsSnapshot, read_snap_kind_iff}
use nether.Hashing.{sha256_file, sha256_bytes}
use nether.Hashing.Chunks.{sha256_file-eq-sha256_bytes}
use nether.Manifest.{read_manifest, write_manifest, key_matches}
use nether.Manifest.Match.{key_matches-write_manifest}
use nether.Tests.Setup.{file, hash, hash-IsIncremental, os, new_key, old_key, files}

abbrev parked : Files
parked = ("/p.snap", file (wsnap_header 1 ++ (7 ∷ [])) 5) ∷ []

abbrev packed : Files
packed = ("/q.snap", file (wsnap2_header 3 ++ []) 5) ∷ []

read_snap_kind_iff_example : (read_snap_kind parked "/p.snap" ≡ some 1) ↔ (
    (f : File) × (lookup "/p.snap" parked ≡ some f) × IsSnapshot f × (unpack_u32 f.content 80 ≡ 1))
read_snap_kind_iff_example = read_snap_kind_iff parked "/p.snap" 1

sha256_file-eq-sha256_bytes_example :
    sha256_file hash files "/bin/nether" ≡ returned (sha256_bytes hash (1 ∷ 2 ∷ 3 ∷ []))
unfolding lookup
sha256_file-eq-sha256_bytes_example =
    sha256_file-eq-sha256_bytes hash hash-IsIncremental files "/bin/nether"
      (file (1 ∷ 2 ∷ 3 ∷ []) 0) refl

key_matches-write_manifest_example :
    (key_matches
        (read_manifest os
          (write_manifest os 9 "/bases/b.snap" new_key "/r.toml" "now" files)
          "/bases/b.snap")
        old_key
      ≡ returned true)
    ↔ (new_key ≡ old_key)
key_matches-write_manifest_example =
    key_matches-write_manifest os 9 "/bases/b.snap" "/r.toml" "now" new_key files refl old_key
