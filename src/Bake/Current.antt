-- ===== src/Bake/Current.antt =====
-- do_bake of scripts/bake.py as a whole: a run that returns leaves a current base.
use nether.Prelude.{ℕ, String, ◌≡◌, refl, ◌≢◌, ◌⊎◌, inl, inr, Bool, true, false}
use nether.Prelude.Outcome.{Outcome, returned, raised}
use nether.Os.{Bytes, exists}
use nether.Errors.{Exc}
use nether.Manifest.{Key, recipe_key}
use nether.Recipe.{Recipe, load_recipe, validate_recipe}
use nether.Vm.{World}
use nether.Bake.{Env, snap_path, is_current, bake_base, do_bake}
use nether.Bake.Idempotent.{Conditions, IsDone-bake_base}

module _ (e : Env) (recipe_path : String) (w : World) (r : Recipe) (raw : Bytes) (key : Key)
    (built : exists w.files e.bin ≡ true)
    (loads : load_recipe e.os e.toml w.files recipe_path ≡ returned (r, raw))
    (valid : validate_recipe w.files r ≡ returned tt)
    (keyed : recipe_key e.hash e.bin w.files raw r.image ≡ returned key) where
  -- The branch of a cache hit.
  do_bake-hits :
      is_current e (snap_path e r) key w.files ≡ returned true
      → do_bake e recipe_path false w ≡ (returned 0, w)
  unfolding do_bake
  do_bake-hits current = rw (built, loads) (rw (valid, keyed) (rw current refl))

  do_bake-bakes :
      (force : Bool)
      → (force ≡ true) ⊎ (is_current e (snap_path e r) key w.files ≡ returned false)
      → do_bake e recipe_path force w ≡ bake_base e recipe_path r key w
  unfolding do_bake
  do_bake-bakes true why = rw (built, loads) (rw (valid, keyed) refl)
  do_bake-bakes false (inl forced) = cc
  do_bake-bakes false (inr stale) = rw (built, loads) (rw (valid, keyed) (rw stale refl))

  do_bake-raises :
      (x : Exc)
      → is_current e (snap_path e r) key w.files ≡ raised x
      → do_bake e recipe_path false w ≡ (raised x, w)
  unfolding do_bake
  do_bake-raises x failed = rw (built, loads) (rw (valid, keyed) (rw failed refl))

  module _ (conditions : Conditions e recipe_path r key) (status : ℕ) where
    leaves_current :
        (force : Bool)
        → (force ≡ true) ⊎ (is_current e (snap_path e r) key w.files ≡ returned false)
        → (do_bake e recipe_path force w).0 ≡ returned status
        → is_current e (snap_path e r) key (do_bake e recipe_path force w).1.files ≡ returned true
    leaves_current force why ran =
        let bakes = do_bake-bakes force why in
        rw bakes
          ((IsDone-bake_base e recipe_path r key conditions).at w status tt (rw bakes at ran))

    unforced :
        (v : Outcome Exc Bool)
        → is_current e (snap_path e r) key w.files ≡ v
        → (do_bake e recipe_path false w).0 ≡ returned status
        → is_current e (snap_path e r) key (do_bake e recipe_path false w).1.files ≡ returned true
    unforced (returned true) v ran = rw (do_bake-hits v) v
    unforced (returned false) v ran = leaves_current false (inr v) ran
    unforced (raised x) v ran = absurd (raised_ne x (rw (do_bake-raises x v) at ran))
      where
        raised_ne : (y : Exc) → ◌≢◌ {A = Outcome Exc ℕ} (raised y) (returned status)
        raised_ne y q = cc

    -- If the binary is there, the recipe loads and passes and its key is read, and do_bake returns,
    -- forced or not, then the base is current for that key: it is there and its manifest has the key.
    -- This is for a `json` that parses back the manifest, a `glob` that lists no manifest and each
    -- path once, an output that is no manifest's path, and a VM that does not touch the output.
    pub do_bake-leaves_current :
        (force : Bool)
        → (do_bake e recipe_path force w).0 ≡ returned status
        → is_current e (snap_path e r) key (do_bake e recipe_path force w).1.files ≡ returned true
    do_bake-leaves_current true ran = leaves_current true (inl refl) ran
    do_bake-leaves_current false ran = unforced (is_current e (snap_path e r) key w.files) refl ran
