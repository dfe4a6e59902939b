-- ===== src/Gc/Parks.antt =====
-- `reap_parks` of scripts/bake.py: it takes away the overdue parks of its directory, and only those.
use nether.Prelude.{
  ℕ, ◌+◌, ◌*◌, ◌-◌, ◌/◌, ◌<◌, String, ◌≡◌, refl, ◌∙◌, ◌≢◌, ◌⊎◌, Bool, true, false, Option, none,
  some, List, arith, Among,
}
use nether.Prelude.Outcome.{Outcome, returned}
use nether.Prelude.Dict.{lookup}
use nether.Os.{File, Files, Os}
use nether.Errors.{Exc}
use nether.Snap.{unpack_u32, read_snap_kind}
use nether.Snap.Header.{IsSnapshot, read_snap_kind_iff}
use nether.Manifest.{manifest_path}
use nether.Gc.{expired, reap_parks, sweep}
use nether.Gc.Sweep.{Apart, IsLocal, verdicts, sweep-reports, sweep_dry}
use nether.Gc.Reported.{verdicts-returned, sweep-only_reported, sweep-all_reported}

-- The path holds a snapshot of KIND 1 that is older than the TTL.
pub record IsOverdue (ttl_s now : ℕ) (fs : Files) (snap : String) : Type 0 where
  pub file : File
  pub found : lookup snap fs ≡ some file
  pub snapshot : IsSnapshot file
  pub park : unpack_u32 file.content 80 ≡ 1
  pub late : file.mtime + ttl_s * 1_000_000 < now

module _ (o : Os) (ttl_s now : ℕ) where
  expired-IsLocal : IsLocal (expired o ttl_s now)
  unfolding expired read_snap_kind
  expired-IsLocal fs fs' s e m = rw e

  read_snap_kind-expired :
      (fs : Files) (snap : String) {line : String × ℕ}
      → expired o ttl_s now fs snap ≡ returned (some line)
      → read_snap_kind fs snap ≡ some 1
  unfolding expired
  read_snap_kind-expired fs snap h = ground arith

  late-expired :
      (fs : Files) (snap : String) (f : File) {line : String × ℕ}
      → expired o ttl_s now fs snap ≡ returned (some line)
      → lookup snap fs ≡ some f
      → f.mtime + ttl_s * 1_000_000 < now
  unfolding expired
  late-expired fs snap f h found = ground arith

  expired-IsOverdue :
      (fs : Files) (snap : String) {line : String × ℕ}
      → expired o ttl_s now fs snap ≡ returned (some line)
      → IsOverdue ttl_s now fs snap
  expired-IsOverdue fs snap h =
      let (f, found, snapshot, park) =
        (read_snap_kind_iff fs snap 1).0 (read_snap_kind-expired fs snap h) in
      record {
        file = f;
        found = found;
        snapshot = snapshot;
        park = park;
        late = late-expired fs snap f h found;
      }

  -- The line that an overdue park is reported with: its name, and its age in whole seconds.
  abbrev pub overdue_line : (fs : Files) (snap : String) → IsOverdue ttl_s now fs snap → String × ℕ
  overdue_line fs snap p = (o.basename snap, (now - p.file.mtime) / 1_000_000)

  IsOverdue-expired :
      (fs : Files) (snap : String) (p : IsOverdue ttl_s now fs snap)
      → expired o ttl_s now fs snap ≡ returned (some (overdue_line fs snap p))
  unfolding expired
  IsOverdue-expired fs snap p = ground (
    arith,
    p.found,
    p.late,
    (read_snap_kind_iff fs snap 1).1 (p.file, p.found, p.snapshot, p.park),
  )

  verdicts-expired :
      (fs : Files) (ss : List String)
      → (lines : List (String × ℕ)) × (verdicts (expired o ttl_s now) fs ss ≡ returned lines)
  unfolding expired
  verdicts-expired fs ss = verdicts-returned o (expired o ttl_s now) fs (λ s. (_, refl)) ss

-- The paths that a run judges, in order.
abbrev pub parks_listed : Os → Files → String → List String
parks_listed o fs dir = o.sorted (o.glob fs dir)

-- A dry run changes no file, whatever the listing is.
pub reap_parks-dry_still :
    (o : Os) (parks_dir : String) (ttl_s now : ℕ) (fs : Files)
    → (reap_parks o parks_dir ttl_s true now fs).1 ≡ fs
unfolding reap_parks
reap_parks-dry_still o parks_dir ttl_s now fs =
    sweep_dry o (expired o ttl_s now) (expired-IsLocal o ttl_s now) (parks_listed o fs parks_dir) fs

module _ (o : Os) (parks_dir : String) (ttl_s now : ℕ) (fs : Files)
    (apart : Apart (parks_listed o fs parks_dir)) where
  abbrev ss : List String
  ss = parks_listed o fs parks_dir

  abbrev judge : Files → String → Outcome Exc (Option (String × ℕ))
  judge = expired o ttl_s now

  local : IsLocal judge
  local = expired-IsLocal o ttl_s now

  reports : (dry : Bool) → (sweep o judge dry ss fs).0 ≡ verdicts judge fs ss
  reports dry = sweep-reports o judge local dry ss fs apart

  -- A dry run of reap_parks reports what a real run reports and changes no file, and neither run
  -- raises, where the listing gives no path twice and no manifest of a listed path.
  pub reap_parks_dry :
      (lines : List (String × ℕ)) × ((reap_parks o parks_dir ttl_s true now fs).0 ≡ returned lines)
      × ((reap_parks o parks_dir ttl_s true now fs).1 ≡ fs)
      × ((reap_parks o parks_dir ttl_s false now fs).0 ≡ returned lines)
  unfolding reap_parks
  reap_parks_dry =
      let (lines, e) = verdicts-expired o ttl_s now fs ss in
      (lines, reports true ∙ e, sweep_dry o judge local ss fs, reports false ∙ e)

  -- Only overdue parks go: a path that a real run of reap_parks changes is a listed overdue park or
  -- its manifest, where the listing gives no path twice and no manifest of a listed path.
  pub reap_parks-only-IsOverdue :
      (j : String)
      → lookup j (reap_parks o parks_dir ttl_s false now fs).1 ≢ lookup j fs
      → (s : String) × Among s (parks_listed o fs parks_dir)
        × IsOverdue ttl_s now fs s
        × ((j ≡ s) ⊎ (j ≡ manifest_path s))
  unfolding reap_parks
  reap_parks-only-IsOverdue j changed =
      let (s, line, m, q, r) = sweep-only_reported o judge local fs ss apart j changed in
      (s, m, expired-IsOverdue o ttl_s now fs s q, r)

  -- All overdue parks go: after a real run of reap_parks a listed overdue park is gone if it may be
  -- removed, and so is its manifest if that may be, where the listing gives no path twice and no
  -- manifest of a listed path.
  pub reap_parks-all-IsOverdue :
      (s : String)
      → Among s (parks_listed o fs parks_dir)
      → IsOverdue ttl_s now fs s
      → (o.removable s ≡ true → lookup s (reap_parks o parks_dir ttl_s false now fs).1 ≡ none)
        × (o.removable (manifest_path s) ≡ true
            → lookup (manifest_path s) (reap_parks o parks_dir ttl_s false now fs).1 ≡ none)
  unfolding reap_parks
  reap_parks-all-IsOverdue s listed p =
      sweep-all_reported o judge local fs ss apart s listed (IsOverdue-expired o ttl_s now fs s p)
        (verdicts-expired o ttl_s now fs ss).1
