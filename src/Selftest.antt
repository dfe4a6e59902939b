-- ===== src/Selftest.antt =====
-- scripts/bake.py: its self-test, over the operations on files. What it prints is left out.
use nether.Prelude.{
  ℕ, ◌-◌, ◌*◌, String, str_eq, Bool, true, false, not, ◌&&◌, Option, none, some, List, [], ◌∷◌,
  ◌==◌, if◌then◌else◌,
}
use nether.Prelude.Outcome.{returned}
use nether.Prelude.Action.{pure, lift, ◌>>=◌, ◌>>◌}
use nether.Prelude.Dict.{insert}
use nether.Os.{Files, Os, exists}
use nether.Snap.{
  wsnap_header, wsnap2_header, read_snap_encoding, snap_kind_base, snap_kind_park, ram_full,
  ram_compressed,
}
use nether.Manifest.{
  Key, manifest_path, write_manifest, read_manifest, subscript, equals_key, key_matches,
}
use nether.Gc.{gc_superseded, reap_parks}
use nether.Vm.{Host, Run, made_folder, removed_tree, write, note, gets, on_files}
use nether.Forkable.{ensure_forkable}

listed : String → List String → Bool
listed name [] = false
listed name (n ∷ ns) = if str_eq n name then true else listed name ns

-- [n for n, _ in ...]
names_of : List (String × ℕ) → List String
names_of [] = []
names_of (r ∷ rs) = r.0 ∷ names_of rs

any_name : List (String × ℕ) → Bool
any_name [] = false
any_name (r ∷ rs) = true

is_encoding : ℕ → Option ℕ → Bool
is_encoding n none = false
is_encoding n (some m) = m == n

-- key
abbrev pub test_key : Key
test_key = record { nether_build = "b1"; kernel_sha = "k"; initramfs_sha = none; recipe_sha = "r" }

-- A change of the files at the time that it is.
edit : (ℕ → Files → Files) → Run (Unit {0})
edit f w = (returned tt, record w { files = f w.clock w.files })

module _ (o : Os) (h : Host) where
  open o use {join}

  -- write_manifest(snap, key, "/r.toml", created)
  manifest_for : String → Key → String → Run (Unit {0})
  unfolding edit write_manifest
  manifest_for snap key created =
      edit (λ now fs. write_manifest o now snap key "/r.toml" created fs)

  -- The manifest's round trip, and key_matches.
  manifests : String → Run Bool
  unfolding write manifest_for gets read_manifest subscript key_matches equals_key
  manifests snap = do
    write snap (0x78 ∷ [])
    manifest_for snap test_key "t"
    m ← gets (λ w. read_manifest o w.files snap)
    j ← lift (subscript "key" m)
    same ← lift (key_matches m test_key)
    other ← lift (key_matches m (record test_key { recipe_sha = "r2" }))
    pure (equals_key j test_key && (same && not other))

  -- gc_superseded on an older generation, and on a base without a manifest
  generations : String → String → Run Bool
  unfolding write manifest_for on_files gc_superseded gets listed manifest_path
  generations d snap = do
    write (join d "old.snap") (0x79 ∷ [])
    manifest_for (join d "old.snap") (record test_key { nether_build = "b0" }) "t0"
    reaped ← on_files (gc_superseded o d snap "/r.toml")
    kept ← gets (λ w. exists w.files snap)
    beside ← gets (λ w. exists w.files (manifest_path (join d "old.snap")))
    write (join d "orph.snap") (0x7a ∷ [])
    on_files (gc_superseded o d snap "/r.toml")
    orphan ← gets (λ w. exists w.files (join d "orph.snap"))
    pure (listed "old.snap" reaped && (kept && (not beside && orphan)))

  -- wsnap(name, kind, age_s)
  wsnap : String → ℕ → ℕ → Run (Unit {0})
  unfolding edit wsnap_header
  wsnap p kind age_s = edit (λ now fs.
      insert p (record { content = wsnap_header kind; mtime = now - age_s * 1_000_000 }) fs)

  -- reap_parks on parks, a base and a file that is no snapshot, and its dry run
  reaper : String → Run Bool
  unfolding note wsnap write gets on_files reap_parks listed names_of any_name
  reaper pd = do
    note (made_folder pd)
    wsnap (join pd "old.park.snap") snap_kind_park 10_000
    wsnap (join pd "new.park.snap") snap_kind_park 5
    wsnap (join pd "keep.base.snap") snap_kind_base 10_000
    write (join pd "junk.snap") (h.encode "not a snapshot header")
    now ← gets (λ w. w.clock)
    names ← on_files (reap_parks o pd 3600 false now)
    old ← gets (λ w. exists w.files (join pd "old.park.snap"))
    new ← gets (λ w. exists w.files (join pd "new.park.snap"))
    base ← gets (λ w. exists w.files (join pd "keep.base.snap"))
    junk ← gets (λ w. exists w.files (join pd "junk.snap"))
    dry ← on_files (reap_parks o pd 1 true now)
    still ← gets (λ w. exists w.files (join pd "new.park.snap"))
    pure (
        (listed "old.park.snap" (names_of names) && not old)
        && ((not (listed "new.park.snap" (names_of names)) && new)
            && (base && (junk && (any_name dry && still)))))

  -- The encodings, and a full base that can be forked as it is.
  encodings : String → Run Bool
  unfolding write gets wsnap2_header read_snap_encoding is_encoding ensure_forkable
  encodings pd = do
    write (join pd "full.base.snap") (wsnap2_header ram_full)
    write (join pd "comp.base.snap") (wsnap2_header ram_compressed)
    full ← gets (λ w. read_snap_encoding w.files (join pd "full.base.snap"))
    comp ← gets (λ w. read_snap_encoding w.files (join pd "comp.base.snap"))
    p ← ensure_forkable o h (join pd "full.base.snap")
    pure (
        is_encoding ram_full full
        && (is_encoding ram_compressed comp && str_eq p (join pd "full.base.snap")))

  -- selftest(), in the folder that mkdtemp makes
  unfoldable pub selftest : String → Run ℕ
  unfolding manifests generations reaper encodings on_files note
  selftest d = do
    a ← manifests (join d "a.snap")
    b ← generations d (join d "a.snap")
    c ← reaper (join d "parks")
    e ← encodings (join d "parks")
    note (removed_tree d)
    on_files (λ fs. (returned tt, h.remove_tree d fs))
    pure (if a && (b && (c && e)) then 0 else 1)
