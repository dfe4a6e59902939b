-- ===== src/Manifest.antt =====
-- scripts/bake.py: the manifest beside a base, its key, and the tests that read it.
pub mod Match
use nether.Prelude.{
  ℕ, ◌+◌, String, ◌<>◌, str_eq, Bool, true, false, not, ◌&&◌, Option, none, some, ◌==◌,
  if◌then◌else◌,
}
use nether.Prelude.Outcome.{Outcome, returned, raised, ◌>>=◌}
use nether.Prelude.Dict.{lookup, insert}
use nether.Os.{
  Bytes, File, Files, Json, null, bool, num, str, arr, obj, nil, cons, Members, end, member, Hash,
  Os, exists,
}
use nether.Errors.{Exc, type_error, key_error, attribute_error}
use nether.Hashing.{sha256_file, sha256_bytes}

-- The dictionary that `recipe_key` returns. `initramfs_sha` may be None.
pub record Key : Type 0 where
  pub nether_build : String
  pub kernel_sha : String
  pub initramfs_sha : Option String
  pub recipe_sha : String

abbrev pub text_or_null : Option String → Json
text_or_null none = null
text_or_null (some s) = str s

abbrev pub key_json : Key → Json
key_json k = obj (
    member "nether_build" (str k.nether_build) (
      member "kernel_sha" (str k.kernel_sha) (
        member "initramfs_sha" (text_or_null k.initramfs_sha)
          (member "recipe_sha" (str k.recipe_sha) end))))

-- The path tests of `image.get("initramfs")`: None and the empty text are false.
abbrev pub truthy_text : Option String → Bool
truthy_text none = false
truthy_text (some s) = not (str_eq s "")

pub record Image : Type 0 where
  pub kernel : Option String
  pub initramfs : Option String

unfoldable pub nether_build_id : Hash → String → Files → Outcome Exc String
nether_build_id H bin fs = if exists fs bin then sha256_file H fs bin else returned "unknown"

-- `sha256_file(path) if path else None`
optional_sha : Hash → Files → Option String → Outcome Exc (Option String)
optional_sha H fs none = returned none
optional_sha H fs (some p) =
    if str_eq p "" then returned none else do s ← sha256_file H fs p; returned (some s)

-- `image["kernel"]` raises KeyError where the key is missing.
required : Option String → Outcome Exc String
required none = raised key_error
required (some p) = returned p

unfoldable pub recipe_key : Hash → String → Files → Bytes → Image → Outcome Exc Key
unfolding nether_build_id optional_sha required
recipe_key H bin fs recipe_bytes image = do
  build ← nether_build_id H bin fs
  kernel ← required image.kernel
  kernel_sha ← sha256_file H fs kernel
  initramfs_sha ← optional_sha H fs image.initramfs
  returned (record {
    nether_build = build;
    kernel_sha = kernel_sha;
    initramfs_sha = initramfs_sha;
    recipe_sha = sha256_bytes H recipe_bytes;
  })

unfoldable pub manifest_path : String → String
manifest_path snap = snap <> ".manifest.json"

abbrev pub manifest_schema : ℕ
manifest_schema = 1

abbrev pub manifest_json : Os → String → Key → String → String → Json
manifest_json o snap key recipe created = obj (
    member "schema" (num manifest_schema) (
      member "out" (str (o.basename snap)) (
        member "recipe" (str recipe)
          (member "created" (str created) (member "key" (key_json key) end)))))

-- `now` is the mtime that the written file gets.
unfoldable pub write_manifest : Os → ℕ → String → Key → String → String → Files → Files
unfolding manifest_path
write_manifest o now snap key recipe created fs =
    insert (manifest_path snap)
      (record { content = o.dumps (manifest_json o snap key recipe created); mtime = now }) fs

-- None, also for what `json.load` or `open` refuses.
or_null : Option Json → Json
or_null none = null
or_null (some j) = j

load_manifest : Os → Option File → Json
unfolding or_null
load_manifest o none = null
load_manifest o (some f) = or_null (o.loads f.content)

unfoldable pub read_manifest : Os → Files → String → Json
unfolding manifest_path load_manifest
read_manifest o fs snap = load_manifest o (lookup (manifest_path snap) fs)

-- bool(j)
abbrev pub truthy : Json → Bool
truthy null = false
truthy (bool b) = b
truthy (num n) = not (n == 0)
truthy (str s) = not (str_eq s "")
truthy (arr nil) = false
truthy (arr (cons _ _)) = true
truthy (obj end) = false
truthy (obj (member _ _ _)) = true

unfoldable pub find_member : String → Members → Json
find_member k end = null
find_member k (member j v m) = if str_eq j k then v else find_member k m

has_member : String → Members → Bool
has_member k end = false
has_member k (member j v m) = if str_eq j k then true else has_member k m

unfoldable pub count_members : Members → ℕ
count_members end = 0
count_members (member j v m) = count_members m + 1

-- j.get(k): None where the key is missing.
unfoldable pub get : String → Json → Outcome Exc Json
unfolding find_member
get k (obj m) = returned (find_member k m)
get k _ = raised attribute_error

-- j[k], for a text k
unfoldable pub subscript : String → Json → Outcome Exc Json
unfolding find_member has_member
subscript k (obj m) = if has_member k m then returned (find_member k m) else raised key_error
subscript k _ = raised type_error

-- j == s, for a text s or None
abbrev pub equals_text : Json → Option String → Bool
equals_text (str t) (some s) = str_eq t s
equals_text null none = true
equals_text _ _ = false

-- j == key: equal dictionaries have the same keys and values, in whatever order.
unfoldable pub equals_key : Json → Key → Bool
unfolding find_member has_member count_members
equals_key (obj m) key =
    (count_members m == 4)
    && (equals_text (find_member "nether_build" m) (some key.nether_build)
        && (equals_text (find_member "kernel_sha" m) (some key.kernel_sha)
            && ((has_member "initramfs_sha" m
                  && equals_text (find_member "initramfs_sha" m) key.initramfs_sha)
                && equals_text (find_member "recipe_sha" m) (some key.recipe_sha))))
equals_key _ key = false

-- bool(manifest) and manifest.get("key") == key
unfoldable pub key_matches : Json → Key → Outcome Exc Bool
unfolding get equals_key
key_matches manifest key =
    if truthy manifest
    then (do j ← get "key" manifest; returned (equals_key j key))
    else returned false
