-- ===== src/Os.antt =====
-- What the scripts use of Python's standard library and of the host: the file system as a
-- dictionary from paths to files, and the functions that are not in the repository as parameters.
use nether.Prelude.{ℕ, String, Bool, true, false, Option, none, some, List, if◌then◌else◌}
use nether.Prelude.Dict.{Dict, lookup, erase}

abbrev pub Bytes : Type 0
Bytes = List ℕ

-- A file: what it holds, and its mtime in microseconds.
pub record File : Type 0 where
  pub content : Bytes
  pub mtime : ℕ

abbrev pub Files : Type 0
Files = Dict File

-- A value as the `json` module reads it.
mutual
  pub data Json : Type 0 where
    null : Json
    bool : Bool → Json
    num : ℕ → Json
    str : String → Json
    arr : Items → Json
    obj : Members → Json

  pub data Items : Type 0 where
    nil : Items
    cons : Json → Items → Items

  pub data Members : Type 0 where
    end : Members
    member : String → Json → Members → Members

-- hashlib's incremental hash.
pub record Hash : Type 1 where
  pub State : Type 0
  pub start : State
  pub update : State → Bytes → State
  pub hexdigest : State → String

-- The functions of `os`, `os.path`, `glob` and `json` that the runner calls. `glob fs dir` is
-- `glob.glob(os.path.join(dir, "*.snap"))`, and `removable p` says that `os.remove(p)` is permitted.
pub record Os : Type 0 where
  pub isabs : String → Bool
  pub join : String → String → String
  pub normpath : String → String
  pub abspath : String → String
  pub basename : String → String
  pub dirname : String → String
  pub glob : Files → String → List String
  pub sorted : List String → List String
  pub removable : String → Bool
  pub dumps : Json → Bytes
  pub loads : Bytes → Option Json

abbrev pub is_file : Option File → Bool
is_file none = false
is_file (some f) = true

-- os.path.exists(path), for a file
abbrev pub exists : Files → String → Bool
exists fs p = is_file (lookup p fs)

-- os.remove(p) under `except OSError: pass`
unfoldable pub remove : Os → String → Files → Files
remove o p fs = if o.removable p then erase p fs else fs
