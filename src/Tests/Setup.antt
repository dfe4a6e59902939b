-- ===== src/Tests/Setup.antt =====
-- A host, a VM and a recipe at which the theorems are applied.
use text.Mathlib.Text.{starts_with}
use text.Mathlib.TextLemmas.{IsSuffix-length-le}
use mathlib.Core.List.{append-nil, append_assoc}
use nether.Prelude.{
  ℕ, arith, ◌≢◌, Among, here, there, String, ◌<>◌, ◌≡◌, refl, sym, str_eq, eq_iff, true, false,
  none, some, List, [], ◌∷◌, ◌++◌, ◌==◌, if◌then◌else◌, length,
}
use nether.Prelude.Dict.{insert}
use nether.Os.{Bytes, File, Files, Json, Hash, Os}
use nether.Manifest.{manifest_path}
use nether.Gc.Sweep.{Apart}
use nether.Hashing.Chunks.{IsIncremental}
use nether.Manifest.{Key, manifest_json}
use nether.Recipe.{Recipe}
use nether.Wire.{chunk}
use nether.Vm.{Host, World}
use nether.Bake.{Env}

abbrev pub file : Bytes → ℕ → File
file b t = record { content = b; mtime = t }

-- Paths are absolute from "/" on, and all folders are "/bases".
abbrev pub bare_os : Os
bare_os = record {
  isabs = λ p. starts_with p "/";
  join = λ a b. (a <> "/") <> b;
  normpath = λ p. p;
  abspath = λ p. p;
  basename = λ p. if str_eq p "/bases/b.snap" then "b.snap" else p;
  dirname = λ p. "/bases";
  glob = λ fs dir. "/bases/b.snap" ∷ "/bases/a.snap" ∷ [];
  sorted = λ ps. ps;
  removable = λ p. true;
  dumps = λ j. 1 ∷ [];
  loads = λ b. none;
}

abbrev pub new_key : Key
new_key = record { nether_build = "h3"; kernel_sha = "h"; initramfs_sha = none; recipe_sha = "h" }

abbrev pub old_key : Key
old_key = record new_key { nether_build = "h0" }

abbrev pub new_manifest : Json
new_manifest = manifest_json bare_os "/bases/b.snap" new_key "/r.toml" "now"

abbrev pub old_manifest : Json
old_manifest = manifest_json bare_os "/bases/a.snap" old_key "/r.toml" "then"

-- The JSON text of a manifest is one byte here: 1 the new one's, 2 the old one's.
abbrev pub os : Os
os = record bare_os {
  loads = λ b.
      if length b == 1
      then (elim b [
        | [] ↦ none
        | x ∷ xs ↦ if x == 1 then some new_manifest else if x == 2 then some old_manifest else none
      ])
      else none;
}

abbrev pub hash : Hash
hash = record {
  State = Bytes;
  start = [];
  update = λ h b. h ++ b;
  hexdigest = λ h. if length h == 3 then "h3" else "h";
}

pub hash-IsIncremental : IsIncremental hash
hash-IsIncremental = record {
  update-append = λ h a b. append_assoc h a b;
  update-nil = λ h. append-nil h;
}

-- The VM answers each line at once with a byte, the delimiter and a newline, which reads as
-- "OK READY", and its snapshot is in the work folder.
abbrev pub host : Host
host = record {
  reply = λ t. chunk (0x41 ∷ 0x1e ∷ 0x0a ∷ []) ∷ [];
  takes = λ t. 10;
  writes = λ t fs. insert "/w/b.snap" (file (7 ∷ []) 0) fs;
  socket_exists = λ p t. true;
  can_launch = λ p t. true;
  accepts = λ p t. true;
  transform = λ conf fs. (some 0, insert "/bases/b.snap.ztmp" (file (8 ∷ []) 0) fs);
  remove_tree = λ p fs. fs;
  encode = λ s. [];
  decode = λ b. "OK READY";
  strip = λ s. s;
}

abbrev pub recipe : Recipe
recipe = record {
  image = record { kernel = some "/k"; initramfs = none };
  snapshot = record { out = some "/bases/b.snap"; base = none; compress = some "deflate" };
  files = record { host = some "/f"; guest = some "/g" } ∷ [];
  warmup =
      record { run = some "warm"; start = none } ∷ record { run = none; start = some "app" } ∷ [];
  ready = record { command = none; port = some 80 };
  resources = record { ram_mb = none; cpus = some 2 };
  disk = record { file = none; size_mb = none };
  egress = some "allow";
  run_as = none;
  dir = "/bases";
}

abbrev pub env : Env
env = record {
  os = os;
  host = host;
  hash = hash;
  toml = λ b. some recipe;
  show = λ n. "n";
  date = λ t. "now";
  bin = "/bin/nether";
  work = "/w";
}

abbrev pub files : Files
files =
    ("/bin/nether", file (1 ∷ 2 ∷ 3 ∷ []) 0)
    ∷ ("/r.toml", file (5 ∷ []) 0)
    ∷ ("/k", file (6 ∷ []) 0)
    ∷ ("/f", file (9 ∷ []) 0)
    ∷ ("/bases/a.snap", file (4 ∷ []) 0)
    ∷ ("/bases/a.snap.manifest.json", file (2 ∷ []) 0)
    ∷ []

abbrev pub world : World
world = record { files = files; clock = 0; inbox = []; trace = [] }

pub texts_ne : (s t : String) → str_eq s t ≡ false → s ≢ t
texts_ne s t h e = ground (arith, (eq_iff s t).1 e)

-- What `glob` gives in this folder.
abbrev pub both : List String
both = "/bases/b.snap" ∷ "/bases/a.snap" ∷ []

pub both-Apart : Apart both
unfolding manifest_path
both-Apart = (
  (
    texts_ne "/bases/b.snap" "/bases/a.snap" refl,
    texts_ne "/bases/b.snap.manifest.json" "/bases/a.snap" refl,
    texts_ne "/bases/b.snap" "/bases/a.snap.manifest.json" refl,
    tt,
  ),
  (tt, tt),
)

-- Their names are shorter than the suffix of a manifest.
pub b_ne-manifest_path : (t : String) → "/bases/b.snap" ≢ manifest_path t
unfolding manifest_path
b_ne-manifest_path t h = absurd (omega (arith, IsSuffix-length-le ".manifest.json" (t, sym h)))

pub both-proper : (s t : String) → Among s both → s ≢ manifest_path t
unfolding manifest_path
both-proper s t here h = absurd (omega (arith, IsSuffix-length-le ".manifest.json" (t, sym h)))
both-proper s t (there here) h =
    absurd (omega (arith, IsSuffix-length-le ".manifest.json" (t, sym h)))
both-proper s t (there (there m)) h = elim m [ ]
