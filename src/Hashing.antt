-- ===== src/Hashing.antt =====
-- scripts/bake.py: hashing a file in chunks, and hashing bytes at once. The hash is a parameter.
pub mod Chunks
use nether.Prelude.{ℕ, zero, suc, String, none, some, [], ◌∷◌, take, drop, length, ◌+◌}
use nether.Prelude.Outcome.{Outcome, returned, raised}
use nether.Prelude.Dict.{lookup}
use nether.Os.{Bytes, Files, Hash}
use nether.Errors.{Exc, os_error}

abbrev pub chunk_size : ℕ
chunk_size = 1_048_576

module _ (H : Hash) where
  -- `for chunk in iter(lambda: f.read(n), b""): h.update(chunk)`. The fuel bounds the reads.
  read_chunks : ℕ → ℕ → H.State → Bytes → H.State
  read_chunks zero n h rest = h
  read_chunks (suc fuel) n h rest = elim (take n rest) [
    | [] ↦ h
    | b ∷ chunk ↦ read_chunks fuel n (H.update h (b ∷ chunk)) (drop n rest)
  ]

  -- One read for each byte, and the last one that finds the end, are enough.
  unfoldable pub sha256_file : Files → String → Outcome Exc String
  unfolding read_chunks
  sha256_file fs path = elim (lookup path fs) [
    | none ↦ raised os_error
    | some f ↦
        returned (H.hexdigest (read_chunks (length f.content + 1) chunk_size H.start f.content))
  ]

  unfoldable pub sha256_bytes : Bytes → String
  sha256_bytes b = H.hexdigest (H.update H.start b)
