-- ===== src/Hashing/Chunks.antt =====
-- Hashing a file in chunks is hashing its bytes at once.

use nether.Prelude.{
  ℕ, zero, suc, ◌+◌, ◌<◌, ◌≡◌, sym, ap, ◌∙◌, String, some, [], ◌∷◌, ◌++◌, arith, take, drop, length,
  take-append-drop, length-drop,
}
use nether.Prelude.Outcome.{returned}
use nether.Prelude.Dict.{lookup}
use nether.Os.{Bytes, File, Files, Hash}
use nether.Hashing.{read_chunks, sha256_file, sha256_bytes}

-- hashlib documents that repeated calls of `update` are equivalent to one with the concatenation.
pub record IsIncremental (H : Hash) : Type 0 where
  pub update-append : (h : H.State) (a b : Bytes) → H.update (H.update h a) b ≡ H.update h (a ++ b)
  pub update-nil : (h : H.State) → H.update h [] ≡ h

module _ (H : Hash) (I : IsIncremental H) where
  -- `m + 1` is the chunk size
  read_chunks-eq-update :
      (fuel m : ℕ) (h : H.State) (rest : Bytes)
      → length rest < fuel
      → read_chunks H fuel (suc m) h rest ≡ H.update h rest
  unfolding read_chunks
  read_chunks-eq-update zero m h rest enough = absurd (omega arith)
  read_chunks-eq-update (suc fuel) m h [] enough = sym (I.update-nil h)
  read_chunks-eq-update (suc fuel) m h (b ∷ rest) enough =
      read_chunks-eq-update fuel m (H.update h (b ∷ take m rest)) (drop m rest)
        (omega (arith, length-drop m rest))
      ∙ I.update-append h (b ∷ take m rest) (drop m rest)
      ∙ ap (λ t. H.update h (b ∷ t)) (take-append-drop m rest)

  -- For a file that exists, sha256_file returns what sha256_bytes gives for the file's content, if
  -- updating a hash twice is updating it with the concatenation.
  pub sha256_file-eq-sha256_bytes :
      (fs : Files) (path : String) (f : File)
      → lookup path fs ≡ some f
      → sha256_file H fs path ≡ returned (sha256_bytes H f.content)
  unfolding sha256_file sha256_bytes
  sha256_file-eq-sha256_bytes fs path f h =
      rw (h, sha256_file)
        (ap (λ t. returned (H.hexdigest t))
          (read_chunks-eq-update (length f.content + 1) 1_048_575 H.start f.content (omega arith)))
