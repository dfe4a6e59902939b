-- ===== src/Forkable.antt =====
-- scripts/bake.py: compress_base and ensure_forkable.
pub mod Cache
use nether.Prelude.{ℕ, String, ◌<>◌, Bool, false, not, Option, none, some, leb, ◌==◌, if◌then◌else◌}
use nether.Prelude.Outcome.{returned}
use nether.Prelude.Action.{pure, raise, ◌>>=◌, ◌>>◌}
use nether.Prelude.Dict.{lookup}
use nether.Os.{File, Files, Os}
use nether.Errors.{exit, compress_failed, rehydrate_failed}
use nether.Snap.{read_snap_encoding, ram_compressed}
use nether.Vm.{Host, Run, move, nether_transform}

unfoldable pub compress_base : Os → Host → String → Run (Unit {0})
compress_base o h snap = do
  done ← nether_transform h o "compress_in" "compress_out" snap (snap <> ".ztmp")
  if done then move (snap <> ".ztmp") snap else raise (exit compress_failed)

is_compressed : Option ℕ → Bool
is_compressed none = false
is_compressed (some encoding) = encoding == ram_compressed

-- os.path.exists(hy) and os.path.getmtime(hy) >= os.path.getmtime(snap)
newer : Option File → Option File → Bool
newer (some hy) (some snap) = leb snap.mtime hy.mtime
newer _ _ = false

unfoldable pub is_fresh : Files → String → String → Bool
unfolding newer
is_fresh fs hy snap = newer (lookup hy fs) (lookup snap fs)

unfoldable pub ensure_forkable : Os → Host → String → Run String
unfolding is_compressed is_fresh
ensure_forkable o h snap w =
    if not (is_compressed (read_snap_encoding w.files snap))
    then (returned snap, w)
    else if is_fresh w.files (snap <> ".hydrated") snap
    then (returned (snap <> ".hydrated"), w)
    else (do
      done ← nether_transform h o "rehydrate_in" "rehydrate_out" snap (snap <> ".hydrated")
      if done then pure (snap <> ".hydrated") else raise (exit rehydrate_failed))
        w
