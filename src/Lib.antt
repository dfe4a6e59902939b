-- ===== src/Lib.antt =====
-- The scripts of nether, a virtual machine monitor, that bake, keep and collect base snapshots.
--
-- The program. scripts/bake.py turns a recipe into a base snapshot: it boots a VM, drives it over a
-- control socket until it is ready, has it write its memory, and records a manifest beside the
-- file. The manifest's key tells whether a base is still current, and the collectors go by it. The
-- scripts around bake.py drive such bases and speak the same protocol.
--
-- The files, and the code that they model:
--   * Prelude: the library's names, Boolean tests, lists, dictionaries, outcomes (a value or an
--     exception), actions on a state that may raise, with `finally` for try and finally.
--   * Errors, Os: the exceptions (`exit` is what `die` raises), and the file system as a dictionary
--     from paths to files with their mtime; os, os.path, glob, json and hashlib are parameters.
--   * Snap: read_snap_kind and read_snap_encoding of scripts/bake.py, and the headers that its
--     self-test packs (`wsnap_header`, `wsnap2_header`).
--   * Hashing: sha256_file and sha256_bytes. Manifest: recipe_key, write_manifest, read_manifest,
--     key_matches. Recipe: load_recipe, validate_recipe, render_conf.
--   * Gc: gc_superseded, do_gc and reap_parks. They share one loop, `sweep`, over a verdict for each
--     function (`superseded`, `stale`, `expired`); `reap` is _reap.
--   * Wire: the reading loops (frame, cmd, meta of bake.py, unescape and read_framed of
--     scripts/proto_v2.py, frame of scripts/fork_serve.py and scripts/pool_serve.py as `spin_frame`)
--     over a sequence of recv results; write_escaped of tools/agent.c is `write_escaped`.
--     Wire/Settle is read_v1_settle of scripts/proto_v2.py, over recv results with their times.
--     Proto: the scenario of scripts/proto_v2.py.
--   * Vm: uconn, cmd, meta, wait_sock and _nether_transform, as actions on a world of files, clock,
--     inbox and the trace of the calls made. What the VM answers is a function of that trace.
--   * Forkable: compress_base and ensure_forkable. Bake: wait_ready and do_bake. Fork: do_fork, whose
--     part from the launch on is `start_vm`. Cli: main, whose arguments select one of these.
--     Selftest: selftest, over the modelled operations.
--   * Fuzz: mutants, classify and the verdict of scripts/fuzz_restore.py (`fuzz`, from what bake_base
--     returns); Python's random and the runs of the binary are parameters. Fuzz/Base has bake_base
--     and main as a whole.
--   * Materialize: scripts/materialize_dedup_proof.py, over any sizes of pages (`script_sizes` are
--     its own). Materialize/Pages sees its RAM page by page.
--   * Lab: what scripts/fork_serve.py, pool_serve.py, park_multi_proof.py, park_await_proof.py,
--     park_timer_proof.py, park_density_proof.py, wallclock_proof.py, vmgenid_proof.py and
--     fork_entropy_proof.py share: the calls of each script's copies (uc, framed, frame, cmd,
--     meta, cat, hit, launch, wait_sock, ready), and `stop_all` and `verdict` for their clean-ups
--     and their ends. Lab/State has their state `Lab` (clock, trace, processes, connections,
--     failures) and their control flow, Lab/Reads the reading loops. Lab/Preserved, Lab/Tracks and
--     Lab/Stops have the rules for the processes of a script.
--   * Serve: Fork is scripts/fork_serve.py, Pool is scripts/pool_serve.py. Park: Broker is the
--     class Broker of scripts/park_multi_proof.py as a step relation, Multi the rest of that
--     script, Await scripts/park_await_proof.py, Timer scripts/park_timer_proof.py, Density
--     scripts/park_density_proof.py. Clone: Wallclock, Vmgenid and Entropy are
--     scripts/wallclock_proof.py, vmgenid_proof.py and fork_entropy_proof.py. Each `_main` is the
--     script's main, and each `_body` what stands under its try.
--   * Plane: what scripts/data_plane_pacing.py (Plane/Pacing), data_plane_fairness.py
--     (Plane/Fairness) and relay_proof.py (Plane/Relay) share: HTTP over the data plane, and the
--     transfer in a thread. Burst: scripts/swerver_guest_burst.py, its workers up to the barrier
--     (`_arrives`) and from it on. Quiesce: scripts/snapshot_quiesce_proof.py.
--   * Tests: the theorems at concrete inputs; the recipe of Tests/Setup.antt is baked there.
--
-- Interactions. do_bake reads the recipe (Recipe), asks Manifest for the key and for the manifest
-- of the base, drives the VM (Vm, Wire), compresses (Forkable), and calls gc_superseded (Gc). The
-- proof scripts stand on Lab, and reach their broker through its state, which `Site.broker` moves on.
--
-- Bounds and fuel. Times are in microseconds. A round of wait_sock takes 300 of them, so that a
-- timeout t needs no more than t / 300 + 2 rounds; a round of wait_ready takes 50000 at least,
-- and has t / 50000 + 2. The two loops of do_fork have t / 300 + 2 too, and a waiting loop of Lab
-- has timeout / pause + 2, and so has the loop of scripts/relay_proof.py that times requests.
-- read_chunks has a round for each byte and one more. A reading loop
-- goes by structural recursion on what recv gives. A fuel that runs out gives what a timeout
-- gives, but in `spin_frame`, where it is told apart as `none`.
--
-- Not modelled: what is printed, or measured only to be printed, the monitor itself (src/), the
-- guest's tools but for the escaping, and the limits that fuzz_restore.py sets on its children. A
-- recipe's tables are records, so a value of another type than the code expects is left out. Each
-- socket has one timeout, and a recv that nothing answers raises. The clock stands still but for
-- sleeps and the VM's answers. In a proof script a thread that it starts and joins runs in its
-- turn, and a failure is noted by the format of its message. A launch may raise OSError; of the
-- calls that make a folder or write a file only those of fork_vm may. A stream is what has come,
-- so it is finite: for a reply that never ends, the loops of Plane and Burst that read one ask
-- `Site.floods`, and the other readers have no such case. Where a broker is one function of its
-- connection (Park/Await, Park/Density), an exception of its thread is left out. Python's floats
-- are taken without their rounding: a latency is in microseconds, a speed is bytes in
-- microseconds, and a fraction is in hundredths. In Plane/Relay each recv that fails is a
-- timeout. The workers of Burst run in turn, up to the barrier and then from it on. That
-- materialize_dedup_proof.py removes an older output is part of the binary's run.
pub mod Prelude
pub mod Errors
pub mod Os
pub mod Snap
pub mod Hashing
pub mod Manifest
pub mod Gc
pub mod Recipe
pub mod Wire
pub mod Vm
pub mod Forkable
pub mod Bake
pub mod Fork
pub mod Selftest
pub mod Cli
pub mod Fuzz
pub mod Lab
pub mod Materialize
pub mod Serve
pub mod Park
pub mod Clone
pub mod Plane
pub mod Quiesce
pub mod Proto
pub mod Burst
pub mod Tests
