-- ===== src/Bake/Idempotent.antt =====
-- do_bake of scripts/bake.py: a bake leaves a current base.

use nether.Prelude.{ℕ, String, ◌≡◌, refl, ◌∙◌, ◌≢◌, true, some, List, arith, eq_iff, Among}
use nether.Prelude.Outcome.{Outcome, returned, raised}
use nether.Prelude.Action.{pure, finally, resume, ◌>>◌}
use nether.Prelude.Dict.{lookup, lookup-insert}
use nether.Os.{Files, exists}
use nether.Errors.{Exc}
use nether.Manifest.{Key, read_manifest, write_manifest, manifest_json, manifest_path}
use nether.Manifest.Match.{key_matches-write_manifest}
use nether.Recipe.{Recipe}
use nether.Forkable.{compress_base}
use nether.Gc.{gc_superseded}
use nether.Gc.Sweep.{Apart}
use nether.Gc.Bases.Superseded.{gc_superseded-keeps}
use nether.Vm.{World, Op, gets, on_files, move}
use nether.Vm.Leads.{
  Leads, Any, Leads-Any, Leads-pure, Leads-if, Leads-bind, files-meta, HasFile, HasFile-move,
  Leaves, Leaves-Leads, leaves_rules,
}
use nether.Bake.{
  Env, prepare, compress_step, shutdown, keep_snapshot, session, stop_vm, snap_path, is_current,
  record_base, bake_base, or_dot,
}

module _ (e : Env) (snap : String) where
  open e use {os, host}

  -- The VM does not touch the base, which lies outside its folder.
  abbrev pub Spares : Type 0
  Spares = (t : List Op) (fs : Files) → lookup snap (host.writes t fs) ≡ lookup snap fs

  Leaves-compress_base : Leaves snap (compress_base os host snap)
  unfolding compress_base
  Leaves-compress_base = search leaves_rules

  HasFile-shutdown : Spares → Leads (HasFile snap) (HasFile snap) (shutdown e)
  unfolding shutdown
  HasFile-shutdown spares = record { at = λ w a p r. rw files-meta (rw spares p) }

  HasFile-compress_step :
      (r : Recipe) → Leads (HasFile snap) (HasFile snap) (compress_step e r snap)
  unfolding compress_step
  HasFile-compress_step r =
      Leads-if (HasFile snap) (HasFile snap) _ (compress_base os host snap) (pure tt)
        (record { at = λ w a _. Leaves-compress_base.at w a }) (Leads-pure (HasFile snap) tt)

  HasFile-keep_snapshot : (r : Recipe) → Spares → Leads Any (HasFile snap) (keep_snapshot e r snap)
  unfolding keep_snapshot
  HasFile-keep_snapshot r spares =
      Leads-bind (move (os.join e.work (os.basename snap)) snap)
        (λ _. do compress_step e r snap; shutdown e)
        (HasFile-move (os.join e.work (os.basename snap)) snap)
        λ _.
          Leads-bind (compress_step e r snap) (λ _. shutdown e) (HasFile-compress_step r)
            λ _. HasFile-shutdown spares

  Leaves-keep_snapshot : (r : Recipe) → Spares → Leaves snap (keep_snapshot e r snap)
  Leaves-keep_snapshot r spares =
      Leaves-Leads snap (keep_snapshot e r snap) (HasFile-keep_snapshot r spares)

  Leaves-session : (r : Recipe) → Spares → Leaves snap (session e r snap)
  unfolding session
  Leaves-session r spares = search (leaves_rules, Leaves-keep_snapshot) depth 30

module _ (e : Env) (recipe_path snap : String) (key : Key) where
  open e use {os}

  -- `json` parses back the manifest that is written, whatever its date.
  abbrev pub Parses : Type 0
  Parses =
      (t : ℕ)
      → os.loads (os.dumps (manifest_json os snap key (os.abspath recipe_path) (e.date t)))
        ≡ some (manifest_json os snap key (os.abspath recipe_path) (e.date t))

  -- `glob` for "*.snap" gives each path once and no manifest, and the output is no manifest.
  pub record ListsSnaps : Type 0 where
    pub apart : (fs : Files) (dir : String) → Apart (os.glob fs dir)
    pub snaps : (fs : Files) (dir s t : String) → Among s (os.glob fs dir) → s ≢ manifest_path t
    pub output : (s : String) → snap ≢ manifest_path s

  -- The files that record_base leaves if it returns.
  recorded : ℕ → Files → Files
  recorded now fs = write_manifest os now snap key (os.abspath recipe_path) (e.date now) fs

  read_manifest-keeps :
      (fs fs' : Files)
      → lookup (manifest_path snap) fs ≡ lookup (manifest_path snap) fs'
      → read_manifest os fs snap ≡ read_manifest os fs' snap
  unfolding read_manifest
  read_manifest-keeps fs fs' same = rw same

  lookup-recorded :
      ListsSnaps → (now : ℕ) (fs : Files) → lookup snap (recorded now fs) ≡ lookup snap fs
  unfolding recorded write_manifest
  lookup-recorded l now fs = ground (
    arith,
    lookup-insert (manifest_path snap) snap
        (record {
          content = os.dumps (manifest_json os snap key (os.abspath recipe_path) (e.date now));
          mtime = now;
        })
        fs,
    eq_iff (manifest_path snap) snap,
    l.output snap,
  )

  -- What the collector leaves of it is a current base.
  is_current-collected :
      Parses
      → ListsSnaps
      → (dir : String) (now : ℕ) (fs : Files) → exists fs snap ≡ true
      → is_current e snap key
          (gc_superseded os dir snap (os.abspath recipe_path) (recorded now fs)).1
        ≡ returned true
  unfolding is_current recorded
  is_current-collected parses l dir now fs there =
      let after = (gc_superseded os dir snap (os.abspath recipe_path) (recorded now fs)).1 in
      let (snap_kept, manifest_kept) =
        gc_superseded-keeps os dir snap (os.abspath recipe_path) (recorded now fs)
          (l.apart (recorded now fs) dir) l.output (l.snaps (recorded now fs) dir) in
      rw
        (
          snap_kept ∙ lookup-recorded l now fs,
          there,
          read_manifest-keeps after (recorded now fs) manifest_kept,
        )
        ((key_matches-write_manifest os now snap (os.abspath recipe_path) (e.date now) key fs
            (parses now) key).1
          refl)

  abbrev pub IsDone : World → Type 0
  IsDone w = is_current e snap key w.files ≡ returned true

  resume_end :
      (r : Outcome Exc (List String)) (w : World) → (resume {B = ℕ} r (λ _. pure 0) w).1 ≡ w
  resume_end (returned lines) w = refl
  resume_end (raised x) w = refl

  IsDone-record_base :
      Parses → ListsSnaps → Leads (HasFile snap) IsDone (record_base e recipe_path snap key)
  unfolding record_base gets on_files
  IsDone-record_base parses l = record {
    at = λ w a p r. rw resume_end (
        unfold recorded in
        is_current-collected parses l (or_dot (os.dirname snap)) w.clock w.files p);
  }

module _ (e : Env) (recipe_path : String) (r : Recipe) (key : Key) where
  abbrev pub Conditions : Type 0
  Conditions =
      Parses e recipe_path (snap_path e r) key
      × ListsSnaps e recipe_path (snap_path e r) key
      × Spares e (snap_path e r)

  pub IsDone-bake_base :
      Conditions
      → Leads Any (IsDone e recipe_path (snap_path e r) key) (bake_base e recipe_path r key)
  unfolding bake_base
  IsDone-bake_base (parses, lists, spares) =
      Leads-bind (prepare e r) _ (Leads-Any Any (prepare e r)) λ _.
        Leads-bind (finally (session e r (snap_path e r)) (stop_vm e))
          (λ _. record_base e recipe_path (snap_path e r) key) (HasFile-finally spares)
          λ _. IsDone-record_base e recipe_path (snap_path e r) key parses lists
    where
      HasFile-finally :
          Spares e (snap_path e r)
          → Leads Any (HasFile (snap_path e r)) (finally (session e r (snap_path e r)) (stop_vm e))
      HasFile-finally s = record {
        at = λ w a _ q. unfold stop_vm in (Leaves-session e (snap_path e r) r s).at w a q;
      }
