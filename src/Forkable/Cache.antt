-- ===== src/Forkable/Cache.antt =====
-- ensure_forkable of scripts/bake.py: when it rehydrates, and when it leaves all as it is.
use nether.Prelude.{◌≤◌, String, ◌<>◌, ◌≡◌, ◌≢◌, some, arith}
use nether.Prelude.Outcome.{returned}
use nether.Prelude.Dict.{lookup}
use nether.Os.{File, Os}
use nether.Snap.{read_snap_encoding, ram_compressed}
use nether.Vm.{Host, World}
use nether.Forkable.{ensure_forkable}

module _ (o : Os) (h : Host) (snap : String) (w : World) where
  abbrev pub hydrated : String
  hydrated = snap <> ".hydrated"

  -- For a path that does not hold a compressed snapshot, ensure_forkable returns the path and does
  -- nothing.
  pub ensure_forkable-full :
      read_snap_encoding w.files snap ≢ some ram_compressed
      → ensure_forkable o h snap w ≡ (returned snap, w)
  unfolding ensure_forkable
  ensure_forkable-full full = ground arith

  -- For a compressed snapshot beside which there is a rehydrated copy that is at least as new,
  -- ensure_forkable returns the copy and does nothing.
  pub ensure_forkable-cached :
      {s c : File}
      → read_snap_encoding w.files snap ≡ some ram_compressed
      → lookup snap w.files ≡ some s
      → lookup hydrated w.files ≡ some c
      → s.mtime ≤ c.mtime
      → ensure_forkable o h snap w ≡ (returned hydrated, w)
  unfolding ensure_forkable
  ensure_forkable-cached compressed found cached newer = ground arith
