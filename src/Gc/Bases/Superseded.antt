-- ===== src/Gc/Bases/Superseded.antt =====
-- `gc_superseded` of scripts/bake.py, and what the collectors leave behind.
use nether.Prelude.{
  String, ◌≡◌, sym, ap, ◌∙◌, ◌≢◌, ◌⊎◌, inl, inr, true, false, not, ◌||◌, Option, none, some, List,
  arith, Among, Bool-cases, eq_iff, str_eq,
}
use nether.Prelude.Outcome.{Outcome, returned, >>=-returns}
use nether.Prelude.Dict.{lookup}
use nether.Os.{Files, str, Os}
use nether.Errors.{Exc}
use nether.Manifest.{manifest_path, read_manifest, truthy, get}
use nether.Manifest.Match.{equals_some_iff}
use nether.Gc.{superseded, gc_superseded}
use nether.Gc.Sweep.{Apart, IsLocal, sweep-reports, manifest_path-injective}
use nether.Gc.Reported.{sweep-keeps, sweep-only_reported, sweep-all_reported}

module _ (o : Os) (keep recipe : String) where
  -- Another path than the kept one, whose manifest names the same recipe. (The key is not read.)
  pub record IsSuperseded (fs : Files) (s : String) : Type 0 where
    pub other : o.abspath s ≢ keep
    pub has_manifest : truthy (read_manifest o fs s) ≡ true
    pub same_recipe : get "recipe" (read_manifest o fs s) ≡ returned (str recipe)

  superseded-IsLocal : IsLocal (superseded o keep recipe)
  unfolding superseded read_manifest
  superseded-IsLocal fs fs' s e m = rw m

  superseded-IsSuperseded :
      (fs : Files) (s : String) {line : String}
      → superseded o keep recipe fs s ≡ returned (some line)
      → IsSuperseded fs s
  unfolding superseded
  superseded-IsSuperseded fs s h =
      elim (Bool-cases (str_eq (o.abspath s) keep || not (truthy (read_manifest o fs s)))) [
        | inl skipped ↦ absurd (ground arith)
        | inr judged ↦
            let (r, g, last) =
              >>=-returns (get "recipe" (read_manifest o fs s)) _ (rw judged at h) in
            let e : r ≡ str recipe = (equals_some_iff r recipe).0 (ground arith) in
            record {
              other = λ same. ground (arith, (eq_iff (o.abspath s) keep).1 same);
              has_manifest = ground arith;
              same_recipe = g ∙ ap returned e;
            }
      ]

  IsSuperseded-superseded :
      (fs : Files) (s : String)
      → IsSuperseded fs s
      → superseded o keep recipe fs s ≡ returned (some (o.basename s))
  unfolding superseded
  IsSuperseded-superseded fs s p = rw p.same_recipe (
      ground (
        arith,
        eq_iff (o.abspath s) keep,
        p.other,
        p.has_manifest,
        equals_some_iff (str recipe) recipe,
      ))

module _ (o : Os) (bases_dir keep recipe : String) (fs : Files)
    (apart : Apart (o.glob fs bases_dir)) where
  abbrev judge : Files → String → Outcome Exc (Option String)
  judge = superseded o (o.abspath keep) recipe

  local : IsLocal judge
  local = superseded-IsLocal o (o.abspath keep) recipe

  -- A path that gc_superseded changes, also where it raises in the middle, is a listed base with the
  -- same recipe, or the manifest of one, and this base is not the kept one, where the listing gives
  -- no path twice and no manifest of a listed path.
  pub gc_superseded-only-IsSuperseded :
      (j : String)
      → lookup j (gc_superseded o bases_dir keep recipe fs).1 ≢ lookup j fs
      → (s : String) × Among s (o.glob fs bases_dir)
        × IsSuperseded o (o.abspath keep) recipe fs s
        × ((j ≡ s) ⊎ (j ≡ manifest_path s))
  unfolding gc_superseded
  gc_superseded-only-IsSuperseded j changed =
      let (s, line, m, q, r) = sweep-only_reported o judge local fs _ apart j changed in
      (s, m, superseded-IsSuperseded o (o.abspath keep) recipe fs s q, r)

  -- If gc_superseded returns, every listed base with the same recipe but the kept one is gone if it
  -- may be removed, whatever the key in its manifest, and so is its manifest if that may be, where
  -- the listing gives no path twice and no manifest of a listed path.
  pub gc_superseded-all-IsSuperseded :
      (s : String) {lines : List String}
      → (gc_superseded o bases_dir keep recipe fs).0 ≡ returned lines
      → Among s (o.glob fs bases_dir)
      → IsSuperseded o (o.abspath keep) recipe fs s
      → (o.removable s ≡ true → lookup s (gc_superseded o bases_dir keep recipe fs).1 ≡ none)
        × (o.removable (manifest_path s) ≡ true
            → lookup (manifest_path s) (gc_superseded o bases_dir keep recipe fs).1 ≡ none)
  unfolding gc_superseded
  gc_superseded-all-IsSuperseded s ran m p =
      sweep-all_reported o judge local fs _ apart s m
        (IsSuperseded-superseded o (o.abspath keep) recipe fs s p)
        (sym (sweep-reports o judge local false _ fs apart) ∙ ran)

  -- gc_superseded leaves the kept base and its manifest as they are, where the listing gives no path
  -- twice, and neither a listed path nor the kept one is a manifest's path.
  pub gc_superseded-keeps :
      ((s : String) → keep ≢ manifest_path s)
      → ((s t : String) → Among s (o.glob fs bases_dir) → s ≢ manifest_path t)
      → (lookup keep (gc_superseded o bases_dir keep recipe fs).1 ≡ lookup keep fs)
        × (lookup (manifest_path keep) (gc_superseded o bases_dir keep recipe fs).1
            ≡ lookup (manifest_path keep) fs)
  unfolding gc_superseded
  gc_superseded-keeps proper snaps = (
    sweep-keeps o judge local fs _ apart keep (λ s line m q. (other s q, proper s)),
    sweep-keeps o judge local fs _ apart (manifest_path keep) (λ s line m q. (
      λ same. snaps s keep m (sym same),
      λ same. other s q (manifest_path-injective keep s same),
    )),
  )
    where
      other : (s : String) {line : String} → judge fs s ≡ returned (some line) → keep ≢ s
      other s q same =
          (superseded-IsSuperseded o (o.abspath keep) recipe fs s q).other (ap o.abspath (sym same))
