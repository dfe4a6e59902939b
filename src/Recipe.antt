-- ===== src/Recipe.antt =====
-- scripts/bake.py: a recipe as tomllib gives it, the resolution of its image paths, its validation
-- and the nether.conf that is rendered from it. A missing table is one with no keys; `none` is a
-- missing key.
pub mod Checks
use nether.Prelude.{
  ℕ, ◌*◌, String, ◌<>◌, str_eq, Bool, false, not, ◌&&◌, ◌||◌, Option, none, some, List, [], ◌∷◌,
  ◌++◌, ◌==◌, ltb, if◌then◌else◌, length,
}
use nether.Prelude.Outcome.{Outcome, returned, raised, ◌>>=◌}
use nether.Prelude.Dict.{lookup}
use nether.Os.{Bytes, Files, Os, exists}
use nether.Errors.{
  Exc, exit, os_error, bad_toml, kernel_required, kernel_missing, initramfs_missing, out_required,
  base_set, zstd_set, bad_compress, file_too_large,
}
use nether.Manifest.{Image, truthy_text}

pub record Snapshot : Type 0 where
  pub out : Option String
  pub base : Option String
  pub compress : Option String

-- An entry of [[files]].
pub record FileEntry : Type 0 where
  pub host : Option String
  pub guest : Option String

-- An entry of [[warmup]].
pub record Warmup : Type 0 where
  pub run : Option String
  pub start : Option String

pub record Ready : Type 0 where
  pub command : Option String
  pub port : Option ℕ

pub record Resources : Type 0 where
  pub ram_mb : Option ℕ
  pub cpus : Option ℕ

pub record Disk : Type 0 where
  pub file : Option String
  pub size_mb : Option ℕ

pub record Recipe : Type 0 where
  pub image : Image
  pub snapshot : Snapshot
  pub files : List FileEntry
  pub warmup : List Warmup
  pub ready : Ready
  pub resources : Resources
  pub disk : Disk
  pub egress : Option String
  pub run_as : Option String
  pub dir : String

abbrev pub max_xfer : ℕ
max_xfer = 16 * 1024 * 1024

-- A path of [image], resolved against the folder of the recipe.
resolve : Os → String → Option String → Option String
resolve o base none = none
resolve o base (some p) =
    if str_eq p "" || o.isabs p then some p else some (o.normpath (o.join base p))

-- `toml` is `tomllib.loads(raw.decode())`, and none where that raises.
unfoldable pub load_recipe :
    Os → (Bytes → Option Recipe) → Files → String → Outcome Exc (Recipe × Bytes)
unfolding resolve
load_recipe o toml fs path = elim (lookup path fs) [
  | none ↦ raised os_error
  | some f ↦ elim (toml f.content) [
    | none ↦ raised (exit bad_toml)
    | some r ↦
        let base = o.dirname (o.abspath path) in
        returned (
          record r {
            image = record {
              kernel = resolve o base r.image.kernel;
              initramfs = resolve o base r.image.initramfs;
            };
            dir = base;
          },
          f.content,
        )
  ]
]

-- A text for an option, with Python's default.
abbrev pub or_text : Option String → String → String
or_text none d = d
or_text (some s) d = s

abbrev pub or_number : Option ℕ → ℕ → ℕ
or_number none d = d
or_number (some n) d = n

-- os.path.getsize(h) > MAX_XFER, for a file that exists
too_large : Files → String → Bool
too_large fs h = elim (lookup h fs) [ none ↦ false | some f ↦ ltb max_xfer (length f.content) ]

-- The loop over [[files]]. The paths are tested as they are written in the recipe.
check_files : Files → List FileEntry → Outcome Exc (Unit {0})
unfolding too_large
check_files fs [] = returned tt
check_files fs (f ∷ rest) =
    if truthy_text f.host && too_large fs (or_text f.host "")
    then raised (exit file_too_large)
    else check_files fs rest

unfoldable pub validate_recipe : Files → Recipe → Outcome Exc (Unit {0})
unfolding check_files
validate_recipe fs r =
    if not (truthy_text r.image.kernel)
    then raised (exit kernel_required)
    else if not (exists fs (or_text r.image.kernel ""))
    then raised (exit kernel_missing)
    else if truthy_text r.image.initramfs && not (exists fs (or_text r.image.initramfs ""))
    then raised (exit initramfs_missing)
    else if not (truthy_text r.snapshot.out)
    then raised (exit out_required)
    else if truthy_text r.snapshot.base
    then raised (exit base_set)
    else if str_eq (or_text r.snapshot.compress "none") "zstd"
    then raised (exit zstd_set)
    else if not (
        str_eq (or_text r.snapshot.compress "none") "none"
        || str_eq (or_text r.snapshot.compress "none") "deflate")
    then raised (exit bad_compress)
    else check_files fs r.files

-- "%d" % n
abbrev pub Show : Type 0
Show = ℕ → String

-- A value of the recipe, or None, where a false value counts as None.
abbrev pub truthy_number : Option ℕ → Bool
truthy_number none = false
truthy_number (some n) = not (n == 0)

-- A line `key=value`.
line_if : Bool → String → List String
line_if b l = if b then l ∷ [] else []

unfoldable pub conf_lines : Show → Recipe → String → String → Option String → List String
unfolding line_if
conf_lines show r control_socket data_socket restore_from =
    (("control_socket=" <> control_socket) ∷ ("data_socket=" <> data_socket) ∷ [])
    ++ (line_if (truthy_text restore_from) "restore=1"
        ++ (line_if (truthy_text restore_from) ("restore_from=" <> or_text restore_from "")
            ++ (line_if (truthy_number r.ready.port)
                  ("app_port=" <> show (or_number r.ready.port 0))
                ++ ((("ram_mb=" <> show (or_number r.resources.ram_mb 512))
                      ∷ ("cpus=" <> show (or_number r.resources.cpus 1))
                      ∷ [])
                    ++ (line_if (truthy_text r.disk.file) ("disk=" <> or_text r.disk.file "")
                        ++ (line_if (truthy_text r.disk.file && truthy_number r.disk.size_mb)
                              ("disk_size_mb=" <> show (or_number r.disk.size_mb 0))
                            ++ (line_if (str_eq (or_text r.egress "") "allow") "net_open=1"
                                ++ (line_if (not (str_eq (or_text r.egress "deny") "deny")) "net=1"
                                    ++ line_if (truthy_text r.run_as)
                                        ("run_as=" <> or_text r.run_as "")))))))))

-- "\n".join(lines) + "\n"
unfoldable pub join_lines : List String → String
join_lines [] = ""
join_lines (l ∷ ls) = (l <> "\n") <> join_lines ls

unfoldable pub render_conf : Show → Recipe → String → String → Option String → String
unfolding conf_lines join_lines
render_conf show r control_socket data_socket restore_from =
    join_lines (conf_lines show r control_socket data_socket restore_from)
