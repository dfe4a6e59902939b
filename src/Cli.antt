-- ===== src/Cli.antt =====
-- scripts/bake.py: main, the dispatch on the arguments. What is printed is left out.
pub mod Dry
use nether.Prelude.{
  ℕ, String, str_eq, Bool, true, false, Option, none, some, List, [], ◌∷◌, if◌then◌else◌,
}
use nether.Prelude.Outcome.{Outcome, returned, raised}
use nether.Prelude.Action.{pure, raise, lift, ◌>>=◌, ◌>>◌}
use nether.Errors.{
  Exc, exit, no_recipe_argument, no_snap_argument, no_ttl_argument, unknown_command, index_error,
  value_error,
}
use nether.Gc.{do_gc, reap_parks}
use nether.Vm.{Run, gets, on_files}
use nether.Bake.{Env, do_bake}
use nether.Fork.{do_fork}

-- arg in argv
unfoldable pub is_given : String → List String → Bool
is_given arg [] = false
is_given arg (a ∷ rest) = if str_eq a arg then true else is_given arg rest

-- argv[1]
second : List String → Option String
second (a ∷ b ∷ rest) = some b
second _ = none

-- argv[argv.index(arg) + 1], for an argument that is there
value_of : String → List String → Outcome Exc String
value_of arg [] = raised value_error
value_of arg (a ∷ rest) =
    let later = value_of arg rest in
    if str_eq a arg then elim rest [ [] ↦ raised index_error | b ∷ bs ↦ returned b ] else later

-- argv[argv.index(arg) + 1] if arg in argv else default
value_or : String → String → List String → Outcome Exc String
unfolding value_of is_given
value_or default arg argv = if is_given arg argv then value_of arg argv else returned default

-- `kernels` is NB/kernels, `number` is `int` of a text, and none where that raises; a negative number
-- is left out. `selftest` is the function of that name.
module _ (e : Env) (kernels base_work : String) (number : String → Option ℕ)
    (selftest : Run ℕ) where
  -- int(argv[argv.index("--ttl-s") + 1])
  ttl_of : List String → Run ℕ
  unfolding value_of
  ttl_of argv = do
    v ← lift (value_of "--ttl-s" argv)
    elim (number v) [ none ↦ raise value_error | some n ↦ pure n ]

  -- gc --parks, for the folder
  unfoldable pub gc_parks : String → List String → Run ℕ
  unfolding is_given ttl_of
  gc_parks d argv =
      if is_given "--ttl-s" argv
      then (do
        ttl ← ttl_of argv
        now ← gets (λ w. w.clock)
        on_files (reap_parks e.os d ttl (is_given "--dry-run" argv) now)
        pure 0)
      else raise (exit no_ttl_argument)

  -- gc
  unfoldable pub run_gc : List String → Run ℕ
  unfolding value_or is_given gc_parks
  run_gc argv = do
    d ← lift (value_or "." "--dir" argv)
    (if is_given "--parks" argv
        then gc_parks d argv
        else (do on_files (do_gc e.os e.hash e.bin d (is_given "--orphans" argv)); pure 0))

  -- bake
  run_bake : List String → Run ℕ
  unfolding second is_given
  run_bake argv = elim (second argv) [
    | none ↦ raise (exit no_recipe_argument)
    | some path ↦ do_bake e path (is_given "--force" argv)
  ]

  -- fork
  run_fork : List String → Run ℕ
  unfolding second value_or
  run_fork argv = elim (second argv) [
    | none ↦ raise (exit no_snap_argument)
    | some snap ↦ do
      name ← lift (value_or "fork" "--name" argv)
      do_fork e kernels (e.os.join base_work name) snap
  ]

  -- main(argv): the status
  unfoldable pub main : List String → Run ℕ
  unfolding run_bake run_fork run_gc
  main [] = pure 2
  main (c ∷ rest) =
      if str_eq c "bake"
      then run_bake (c ∷ rest)
      else if str_eq c "fork"
      then run_fork (c ∷ rest)
      else if str_eq c "gc"
      then run_gc (c ∷ rest)
      else if str_eq c "selftest"
      then selftest
      else raise (exit unknown_command)
