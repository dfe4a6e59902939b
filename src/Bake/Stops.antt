-- ===== src/Bake/Stops.antt =====
-- do_bake of scripts/bake.py stops the VM that it launches, on every path.
use nether.Prelude.{
  ℕ, zero, suc, ◌+◌, ◌-◌, ◌/◌, String, ◌≡◌, refl, Bool, true, Option, none, some, List, [], ◌∷◌,
  arith, ◌<>◌, ap, ◌∙◌, Bool-cases, inl, inr,
}
use nether.Prelude.Outcome.{Outcome, returned, raised}
use nether.Prelude.Action.{pure, finally, resume, ◌>>=◌}
use nether.Errors.{Exc}
use nether.Os.{Files, Os}
use nether.Manifest.{Key}
use nether.Recipe.{Recipe, FileEntry, Warmup, Ready, Show, or_text, or_number}
use nether.Forkable.{compress_base}
use nether.Vm.{on_files, write, sleep, Host, World, Run, note, launch}
use nether.Vm.Quiet.{running, IsQuiet, IsQuiet-bind, resume-quiet, IsQuiet-meta, vm_rules}
use nether.Bake.{
  Env, required, push_file, push_files, warm_step, warm_up, poll_round, poll_ready, wait_ready,
  shutdown, keep_snapshot, session, stop_vm, prepare, record_base, snap_path, bake_base, bake_steps,
  do_bake,
}

IsQuiet-compress_base : (o : Os) (h : Host) (snap : String) → IsQuiet (compress_base o h snap)
unfolding compress_base
IsQuiet-compress_base o h snap = search vm_rules

IsQuiet-required : (s : Option String) → IsQuiet (required s)
unfolding required
IsQuiet-required none = search vm_rules
IsQuiet-required (some s) = search vm_rules

module _ (o : Os) (h : Host) where
  IsQuiet-push_file : (dir : String) (f : FileEntry) → IsQuiet (push_file o h dir f)
  unfolding push_file
  IsQuiet-push_file dir f = search (vm_rules, IsQuiet-required) depth 8

  IsQuiet-push_files : (dir : String) (fs : List FileEntry) → IsQuiet (push_files o h dir fs)
  unfolding push_files
  IsQuiet-push_files dir [] = search vm_rules
  IsQuiet-push_files dir (f ∷ fs) =
      IsQuiet-bind (push_file o h dir f) (λ _. push_files o h dir fs) (IsQuiet-push_file dir f)
        (λ _. IsQuiet-push_files dir fs)

  IsQuiet-warm_step : (run start : Option String) → IsQuiet (warm_step o h run start)
  unfolding warm_step
  IsQuiet-warm_step (some run) start = search vm_rules
  IsQuiet-warm_step none (some start) = search vm_rules
  IsQuiet-warm_step none none = search vm_rules

  IsQuiet-warm_up : (ss : List Warmup) → IsQuiet (warm_up o h ss)
  unfolding warm_up
  IsQuiet-warm_up [] = search vm_rules
  IsQuiet-warm_up (s ∷ ss) =
      IsQuiet-bind (warm_step o h s.run s.start) (λ _. warm_up o h ss)
        (IsQuiet-warm_step s.run s.start) (λ _. IsQuiet-warm_up ss)

  IsQuiet-poll_round :
      (probe : String) (later : Run Bool) → IsQuiet later → IsQuiet (poll_round o h probe later)
  unfolding poll_round
  IsQuiet-poll_round probe later q = search vm_rules depth 8

  IsQuiet-poll_ready :
      (fuel : ℕ) (probe : String) (deadline : ℕ) → IsQuiet (poll_ready o h fuel probe deadline)
  unfolding poll_ready
  IsQuiet-poll_ready zero probe deadline = record { at = λ w. refl }
  IsQuiet-poll_ready (suc fuel) probe deadline = record {
    at = λ w. ground (
      arith,
      (IsQuiet-poll_round probe (poll_ready o h fuel probe deadline)
            (IsQuiet-poll_ready fuel probe deadline)).at
          w,
    );
  }

  IsQuiet-settle : IsQuiet (sleep 2_000_000 >>= λ _. pure true)
  IsQuiet-settle = search vm_rules

  IsQuiet-wait_ready :
      (show : Show) (ready : Ready) (timeout : ℕ) → IsQuiet (wait_ready o h show ready timeout)
  unfolding wait_ready
  IsQuiet-wait_ready show ready timeout = record {
    at = λ w. ground (
      arith,
      (IsQuiet-poll_ready (timeout / 50_000 + 2) (or_text ready.command "" <> " && echo READY")
            (w.clock + timeout)).at
          w,
      (IsQuiet-poll_ready (timeout / 50_000 + 2)
            (("(exec 3<>/dev/tcp/127.0.0.1/" <> show (or_number ready.port 0))
              <> ") 2>/dev/null && echo READY")
            (w.clock + timeout)).at
          w,
      IsQuiet-settle.at w,
    );
  }

module _ (e : Env) where
  open e use {os, host}

  IsQuiet-shutdown : IsQuiet (shutdown e)
  unfolding shutdown
  IsQuiet-shutdown = record { at = (IsQuiet-meta host "__shutdown__").at }

  IsQuiet-keep_snapshot : (r : Recipe) (snap : String) → IsQuiet (keep_snapshot e r snap)
  unfolding keep_snapshot
  IsQuiet-keep_snapshot r snap = search (vm_rules, IsQuiet-compress_base, IsQuiet-shutdown) depth 8

  IsQuiet-session : (r : Recipe) (snap : String) → IsQuiet (session e r snap)
  unfolding session
  IsQuiet-session r snap =
      search
        (vm_rules, IsQuiet-push_files, IsQuiet-warm_up, IsQuiet-wait_ready, IsQuiet-keep_snapshot)
        depth 30

  IsQuiet-record_base :
      (recipe_path snap : String) (key : Key) → IsQuiet (record_base e recipe_path snap key)
  unfolding record_base
  IsQuiet-record_base recipe_path snap key = search vm_rules depth 12

  -- The VM that is launched is stopped, whatever the session ends with.
  running-session :
      (r : Recipe) (snap : String) (w : World)
      → running (finally (session e r snap) (stop_vm e) w).1.trace ≡ running w.trace - 1
  unfolding stop_vm running
  running-session r snap w = ap (λ n. n - 1) ((IsQuiet-session r snap).at w)

  -- prepare launches one VM, or it raises and launches none.
  Counts : ℕ → Outcome Exc (Unit {0}) → World → Type 0
  Counts n (returned u) v = running v.trace ≡ suc n
  Counts n (raised x) v = running v.trace ≡ n

  prepare-Counts :
      (r : Recipe) (w : World) → Counts (running w.trace) (prepare e r w).0 (prepare e r w).1
  unfolding prepare note on_files write launch running Counts
  prepare-Counts r w = elim (Bool-cases (host.can_launch e.work w.clock)) [
    | inr fails ↦ rw fails refl
    | inl runs ↦ rw runs refl
  ]

  resume-Counts :
      (n : ℕ) (o : Outcome Exc (Unit {0})) (v : World) (m : Run ℕ)
      → Counts n o v
      → running (m v).1.trace ≡ running v.trace - 1
      → running (resume o (λ u. m) v).1.trace ≡ n
  unfolding Counts
  resume-Counts n (returned u) v m c h = omega (arith, c, h)
  resume-Counts n (raised x) v m c h = c

  IsQuiet-bake_base :
      (recipe_path : String) (r : Recipe) (key : Key) → IsQuiet (bake_base e recipe_path r key)
  unfolding bake_base
  IsQuiet-bake_base recipe_path r key = record {
    at = λ w.
        let w1 = (prepare e r w).1 in
        let m = finally (session e r (snap_path e r)) (stop_vm e) w1 in
        resume-Counts (running w.trace) (prepare e r w).0 w1 _ (prepare-Counts r w) (
          resume-quiet m.0 (λ _. record_base e recipe_path (snap_path e r) key) m.1
            (λ _. IsQuiet-record_base recipe_path (snap_path e r) key)
          ∙ running-session r (snap_path e r) w1);
  }

  IsQuiet-bake_steps :
      (recipe_path : String) (force : Bool) (fs : Files)
      → IsQuiet (bake_steps e recipe_path force fs)
  unfolding bake_steps
  IsQuiet-bake_steps recipe_path force fs = search (vm_rules, IsQuiet-bake_base) depth 20

  -- do_bake leaves as many VMs running as there were, whether it returns, exits or raises.
  pub do_bake-stops :
      (recipe_path : String) (force : Bool) (w : World)
      → running (do_bake e recipe_path force w).1.trace ≡ running w.trace
  unfolding do_bake
  do_bake-stops recipe_path force w = (IsQuiet-bake_steps recipe_path force w.files).at w
