-- ===== src/Tests/Bakes.antt =====
-- The theorems on do_bake and on what it calls, at the recipe of Setup.
use nether.Prelude.{
  ℕ, zero, suc, ◌≡◌, ◌↔◌, refl, true, false, some, arith, ◌∷◌, [], replicate, here, length, ◌≤◌,
  ◌<◌,
}
use nether.Prelude.Dict.{lookup, insert, erase, lookup-insert}
use nether.Prelude.Outcome.{returned}
use nether.Os.{Bytes, File, Files, remove, exists}
use nether.Recipe.{
  FileEntry, max_xfer, load_recipe, validate_recipe, render_conf, conf_lines, join_lines,
}
use nether.Recipe.Checks.{IsValid, validate_recipe-IsValid}
use nether.Manifest.{
  recipe_key, read_manifest, write_manifest, key_matches, equals_key, find_member, count_members,
  get, manifest_path, nether_build_id,
}
use nether.Hashing.{sha256_file, sha256_bytes}
use nether.Vm.{
  note, on_files, write, gets, sleep, wait_sock, uconn, cmd, meta, move, send, receive,
  nether_transform,
}
use nether.Wire.{cmd_reply, meta_reply, frame, before, has, read_until}
use nether.Forkable.{compress_base}
use nether.Gc.{gc_superseded, superseded, sweep, reap}
use nether.Bake.{
  do_bake, is_current, snap_path, bake_base, prepare, push_files, push_path, record_base, required,
  session, stop_vm, swallow, wait_ready, warm_up,
}
use nether.Bake.Stops.{do_bake-stops}
use nether.Bake.Idempotent.{Conditions}
use nether.Bake.Current.{do_bake-leaves_current}
use nether.Bake.Push.{push_path-le-max_xfer, push_path-unchecked}
use nether.Vm.Quiet.{running}
use nether.Tests.Setup.{
  host, file, env, world, files, recipe, os, new_key, both-Apart, b_ne-manifest_path, both-proper,
}

loads : load_recipe os env.toml files "/r.toml" ≡ returned (recipe, 5 ∷ [])
unfolding load_recipe lookup
loads = refl

valid : validate_recipe files recipe ≡ returned tt
unfolding validate_recipe lookup
valid = refl

keyed : recipe_key env.hash "/bin/nether" files (5 ∷ []) recipe.image ≡ returned new_key
unfolding recipe_key sha256_file sha256_bytes lookup
keyed = refl

built : exists files "/bin/nether" ≡ true
unfolding lookup
built = refl

conditions : Conditions env "/r.toml" recipe new_key
unfolding snap_path
conditions = (
  λ t. refl,
  record {
    apart = λ fs dir. both-Apart;
    snaps = λ fs dir. both-proper;
    output = b_ne-manifest_path;
  },
  λ t fs. lookup-insert "/w/b.snap" "/bases/b.snap" (file (7 ∷ []) 0) fs,
)

-- The bake of a recipe whose base is not there yet returns.
ran : (do_bake env "/r.toml" false world).0 ≡ returned 0
unfolding do_bake lookup insert erase load_recipe validate_recipe render_conf conf_lines join_lines
    recipe_key read_manifest write_manifest key_matches equals_key find_member count_members get
    manifest_path nether_build_id sha256_file sha256_bytes note on_files write gets sleep wait_sock
    uconn cmd meta move send receive nether_transform cmd_reply meta_reply frame before has
    read_until compress_base gc_superseded superseded sweep reap remove is_current snap_path
    bake_base prepare push_files push_path record_base required session stop_vm swallow wait_ready
    warm_up
ran = refl

do_bake-leaves_current_example :
    is_current env (snap_path env recipe) new_key (do_bake env "/r.toml" false world).1.files
    ≡ returned true
do_bake-leaves_current_example =
    do_bake-leaves_current env "/r.toml" world recipe (5 ∷ []) new_key built loads valid keyed
      conditions 0 false ran

do_bake-stops_example : running (do_bake env "/r.toml" false world).1.trace ≡ running world.trace
do_bake-stops_example = do_bake-stops env "/r.toml" false world

validate_recipe-IsValid_example :
    (validate_recipe files recipe ≡ returned tt) ↔ IsValid files recipe
validate_recipe-IsValid_example = validate_recipe-IsValid files recipe

push_path-le-max_xfer_example : length (file (9 ∷ []) 0).content ≤ max_xfer
unfolding push_path lookup
push_path-le-max_xfer_example =
    push_path-le-max_xfer os files recipe (record { host = some "/f"; guest = some "/g" }) "/f"
      (file (9 ∷ []) 0) valid here refl (λ h. cc) refl refl

length-replicate : (n : ℕ) → length (replicate {A = ℕ} n 0) ≡ n
length-replicate zero = refl
length-replicate (suc n) = omega (arith, length-replicate n)

-- Contents beyond a length, which are not computed.
longer : (n : ℕ) → (b : Bytes) × (n < length b)
longer n = (replicate (suc n) 0, omega (arith, length-replicate (suc n)))

abbrev large : File
large = file (longer max_xfer).0 0

abbrev beside : Files
beside = ("/bases/g", large) ∷ files

abbrev relative : FileEntry
relative = record { host = some "g"; guest = some "/g" }

passes : validate_recipe beside recipe ≡ returned tt
unfolding validate_recipe lookup
passes = refl

push_path-unchecked_example :
    (validate_recipe beside (record recipe { files = relative ∷ recipe.files }) ≡ returned tt)
    × (lookup (push_path os recipe.dir "g") beside ≡ some large)
    × (max_xfer < length large.content)
unfolding lookup
push_path-unchecked_example =
    push_path-unchecked os beside recipe relative "g" large passes refl refl refl refl
      (longer max_xfer).1
