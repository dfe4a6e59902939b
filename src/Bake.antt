-- ===== src/Bake.antt =====
-- scripts/bake.py: do_bake, which boots a VM, drives it by a recipe until it is ready, has it write
-- its snapshot, and records the manifest; and wait_ready, its readiness gate. Output to the
-- terminal is left out.
pub mod Stops
pub mod Idempotent
pub mod Current
pub mod Push
use nether.Prelude.{
  ℕ, zero, suc, ◌+◌, ◌/◌, String, ◌<>◌, str_eq, Bool, true, false, not, ◌&&◌, Option, none, some,
  List, [], ◌∷◌, leb, if◌then◌else◌,
}
use nether.Prelude.Outcome.{Outcome, returned, raised}
use nether.Prelude.Action.{pure, raise, lift, finally, ◌>>=◌, ◌>>◌}
use nether.Os.{Bytes, Files, Hash, Os, exists}
use nether.Errors.{Exc, exit, key_error, no_binary, socket_missing, never_ready, snapshot_failed}
use nether.Manifest.{Key, truthy_text, recipe_key, read_manifest, write_manifest, key_matches}
use nether.Gc.{gc_superseded}
use nether.Recipe.{
  Recipe, FileEntry, Warmup, Ready, Show, or_text, or_number, truthy_number, load_recipe,
  validate_recipe, render_conf,
}
use nether.Forkable.{compress_base}
use nether.Vm.{
  Host, World, Run, removed_tree, made_folder, linked, launch, terminated, killed, contains, sleep,
  note, gets, on_files, write, move, cmd, meta, uconn, wait_sock,
}

-- The module's constants and what a run is given: the paths of the binary and of the work folder,
-- the date function of the manifest, and the parameters that stand for libraries.
pub record Env : Type 1 where
  pub os : Os
  pub host : Host
  pub hash : Hash
  pub toml : Bytes → Option Recipe
  pub show : Show
  pub date : ℕ → String
  pub bin : String
  pub work : String

-- d["key"]
unfoldable pub required : Option String → Run String
required none = raise key_error
required (some s) = pure s

-- hp: the host path of a file that is pushed
unfoldable pub push_path : Os → String → String → String
push_path o dir host = if o.isabs host then host else o.join dir host

module _ (o : Os) (h : Host) where
  push_file : String → FileEntry → Run (Unit {0})
  unfolding required push_path
  push_file dir f = do
    host ← required f.host
    guest ← required f.guest
    cmd h ((("__put__ " <> push_path o dir host) <> " ") <> guest)
    pure tt

  unfoldable pub push_files : String → List FileEntry → Run (Unit {0})
  unfolding push_file
  push_files dir [] = pure tt
  push_files dir (f ∷ fs) = let rest = push_files dir fs in do push_file dir f; rest

  -- A step with neither key does nothing.
  warm_step : Option String → Option String → Run (Unit {0})
  warm_step (some run) start = do cmd h run; pure tt
  warm_step none (some start) = do cmd h (start <> " >/tmp/bake-start.log 2>&1 &"); pure tt
  warm_step none none = pure tt

  unfoldable pub warm_up : List Warmup → Run (Unit {0})
  unfolding warm_step
  warm_up [] = pure tt
  warm_up (s ∷ ss) = let rest = warm_up ss in do warm_step s.run s.start; rest

  -- A round of the gate's loop, and what comes after its sleep.
  poll_round : String → Run Bool → Run Bool
  poll_round probe later = do
    answer ← cmd h probe
    if contains "READY" answer then pure true else do sleep 50_000; later

  -- `while time.time() - t0 < timeout: if "READY" in cmd(s, probe, 10): return True; sleep(0.05)`.
  -- The fuel bounds the rounds.
  poll_ready : ℕ → String → ℕ → Run Bool
  unfolding poll_round
  poll_ready zero probe deadline w = (returned false, w)
  poll_ready (suc fuel) probe deadline w =
      let later = poll_round probe (poll_ready fuel probe deadline) w in
      if leb deadline w.clock then (returned false, w) else later

  -- The timeout is in microseconds. A round takes 50 milliseconds at least.
  unfoldable pub wait_ready : Show → Ready → ℕ → Run Bool
  unfolding poll_ready
  wait_ready show ready timeout w =
      if truthy_text ready.command
      then poll_ready (timeout / 50_000 + 2) (or_text ready.command "" <> " && echo READY")
          (w.clock + timeout) w
      else if truthy_number ready.port
      then poll_ready (timeout / 50_000 + 2)
          ((("(exec 3<>/dev/tcp/127.0.0.1/" <> show (or_number ready.port 0))
            <> ") 2>/dev/null && echo READY"))
          (w.clock + timeout) w
      else (do sleep 2_000_000; pure true) w

-- os.path.dirname(snap) or "."
abbrev pub or_dot : String → String
or_dot d = if str_eq d "" then "." else d

-- `except Exception: pass` lets SystemExit through.
unfoldable pub swallow : Outcome Exc String → Outcome Exc (Unit {0})
swallow (raised (exit r)) = raised (exit r)
swallow _ = returned tt

module _ (e : Env) where
  open e use {os, host, hash, bin, work}

  compress_step : Recipe → String → Run (Unit {0})
  compress_step r snap =
      if str_eq (or_text r.snapshot.compress "none") "deflate"
      then compress_base os host snap
      else pure tt

  -- try: meta(s, "__shutdown__", 5) except Exception: pass
  shutdown : Run (Unit {0})
  unfolding swallow
  shutdown w = let (answer, w') = meta host "__shutdown__" w in (swallow answer, w')

  -- From the written snapshot on.
  keep_snapshot : Recipe → String → Run (Unit {0})
  unfolding compress_step shutdown
  keep_snapshot r snap = do
    move (os.join work (os.basename snap)) snap
    compress_step r snap
    shutdown

  -- The steps under `try`, from the wait for the control socket on.
  unfoldable pub session : Recipe → String → Run (Unit {0})
  unfolding push_files warm_up wait_ready keep_snapshot
  session r snap = do
    up ← wait_sock host (os.join work "b.sock") 40_000_000
    if not up then raise (exit socket_missing) else do
      uconn host (os.join work "b.sock")
      cmd host "__info__"
      push_files os host r.dir r.files
      warm_up os host r.warmup
      ready ← wait_ready os host e.show r.ready 60_000_000
      if not ready then raise (exit never_ready) else do
        reply ← meta host ("__snapshot__ " <> os.basename snap)
        if not (contains "OK" reply) then raise (exit snapshot_failed) else keep_snapshot r snap

  -- proc.terminate(); time.sleep(0.3); proc.kill()
  unfoldable pub stop_vm : World → World
  stop_vm w = record w { clock = w.clock + 300_000; trace = killed ∷ (terminated ∷ w.trace) }

  -- snap: the output path, resolved against the folder of the recipe
  unfoldable pub snap_path : Recipe → String
  snap_path r =
      let out = or_text r.snapshot.out "" in if os.isabs out then out else os.join r.dir out

  unfoldable pub is_current : String → Key → Files → Outcome Exc Bool
  is_current snap key fs =
      if exists fs snap then key_matches (read_manifest os fs snap) key else returned false

  -- The work folder, the VM's conf, and the VM.
  unfoldable pub prepare : Recipe → Run (Unit {0})
  unfolding launch
  prepare r = do
    note (removed_tree work)
    on_files (λ fs. (returned tt, host.remove_tree work fs))
    note (made_folder work)
    note (linked (os.dirname (or_text r.image.kernel "")) (os.join work "kernels"))
    write (os.join work "nether.conf") (host.encode (render_conf e.show r "b.sock" "b.data" none))
    launch host work

  -- The manifest, and the generations that the base supersedes.
  unfoldable pub record_base : String → String → Key → Run ℕ
  record_base recipe_path snap key = do
    now ← gets (λ w. w.clock)
    on_files (λ fs.
        (returned tt, write_manifest os now snap key (os.abspath recipe_path) (e.date now) fs))
    on_files (gc_superseded os (or_dot (os.dirname snap)) snap (os.abspath recipe_path))
    pure 0

  -- Boot, session and record; the VM is stopped whatever the session ends with.
  unfoldable pub bake_base : String → Recipe → Key → Run ℕ
  unfolding prepare session stop_vm record_base
  bake_base recipe_path r key = do
    prepare r
    finally (session r (snap_path r)) stop_vm
    record_base recipe_path (snap_path r) key

  -- do_bake from the files as they are at its start.
  bake_steps : String → Bool → Files → Run ℕ
  unfolding bake_base is_current snap_path
  bake_steps recipe_path force fs = if not (exists fs bin) then raise (exit no_binary) else do
    loaded ← lift (load_recipe os e.toml fs recipe_path)
    lift (validate_recipe fs loaded.0)
    key ← lift (recipe_key hash bin fs loaded.1 loaded.0.image)
    current ← lift (if force then returned false else is_current (snap_path loaded.0) key fs)
    if current then pure 0 else bake_base recipe_path loaded.0 key

  -- do_bake(recipe_path, force): the status, which is 0.
  unfoldable pub do_bake : String → Bool → Run ℕ
  unfolding bake_steps
  do_bake recipe_path force w = bake_steps recipe_path force w.files w
