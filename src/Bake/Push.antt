-- ===== src/Bake/Push.antt =====
-- The files that do_bake of scripts/bake.py pushes, against the limit that validate_recipe checks.
use nether.Prelude.{
  ◌≤◌, ◌<◌, String, ◌≡◌, ◌≢◌, true, false, some, none, ◌∷◌, arith, length, Among, here, there, List,
}
use nether.Prelude.Outcome.{returned}
use nether.Prelude.Dict.{lookup}
use nether.Os.{File, Files, Os}
use nether.Recipe.{Recipe, FileEntry, max_xfer, validate_recipe}
use nether.Recipe.Checks.{AllFit, Fits, validate_recipe-IsValid}
use nether.Bake.{push_path}

AllFit-Among :
    (fs : Files) {e : FileEntry} {es : List FileEntry} → Among e es → AllFit fs es → Fits fs e
AllFit-Among fs here (f, rest) = f
AllFit-Among fs (there m) (f, rest) = AllFit-Among fs m rest

-- Of a recipe that validate_recipe passes, a file entry with an absolute path is pushed from that
-- path, and the file there is not beyond the transfer limit.
pub push_path-le-max_xfer :
    (o : Os) (fs : Files) (r : Recipe) (e : FileEntry) (host : String) (f : File)
    → validate_recipe fs r ≡ returned tt
    → Among e r.files
    → e.host ≡ some host
    → host ≢ ""
    → o.isabs host ≡ true
    → lookup (push_path o r.dir host) fs ≡ some f
    → length f.content ≤ max_xfer
unfolding push_path
push_path-le-max_xfer o fs r e host f passed m given ne absolute found =
    AllFit-Among fs m ((validate_recipe-IsValid fs r).0 passed).files host f given ne
      (rw absolute at found)

-- If a relative path of a file entry holds no file as it stands, but one beyond the limit from the
-- recipe's folder, then a recipe that passes still passes with the entry added, and that file is the
-- one that is pushed.
pub push_path-unchecked :
    (o : Os) (fs : Files) (r : Recipe) (e : FileEntry) (host : String) (f : File)
    → validate_recipe fs r ≡ returned tt
    → e.host ≡ some host
    → o.isabs host ≡ false
    → lookup host fs ≡ none
    → lookup (o.join r.dir host) fs ≡ some f
    → max_xfer < length f.content
    → (validate_recipe fs (record r { files = e ∷ r.files }) ≡ returned tt)
      × (lookup (push_path o r.dir host) fs ≡ some f)
      × (max_xfer < length f.content)
unfolding push_path
push_path-unchecked o fs r e host f passed given relative missing found large =
    let v = (validate_recipe-IsValid fs r).0 passed in
    (
      (validate_recipe-IsValid fs (record r { files = e ∷ r.files })).1 (record {
        kernel = v.kernel;
        initramfs = v.initramfs;
        out = v.out;
        no_base = v.no_base;
        compress = v.compress;
        files = (λ s g given' ne found'. absurd (ground arith), v.files);
      }),
      rw relative found,
      large,
    )
