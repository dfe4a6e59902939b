-- ===== src/Snap/Header.antt =====
-- Facts about the snapshot header readers of scripts/bake.py.
use nether.Prelude.{
  ℕ, ◌+◌, ◌^◌, ◌≤◌, ◌<◌, ◌≡◌, refl, ◌↔◌, Option, none, some, ◌++◌, arith, String, ap, min, length,
  length-take, get_or-take, take,
}
use mathlib.Core.Path.{subst, sym}
use mathlib.Core.Option.{some-injective}
use nether.Prelude.Dict.{lookup}
use nether.Os.{Bytes, File, Files}
use nether.Snap.{
  recognised, field_of, field_in, unpack_u32, read_snap_kind, read_snap_encoding, wsnap_header,
  wsnap2_header, snap_magic, snap_version,
}

-- The KIND below 2 ^ 32 that a file's header was packed with is the KIND that is read back, whatever
-- follows the header.
pub read_snap_kind-wsnap :
    (fs : Files) (path : String) (kind mtime : ℕ) (rest : Bytes)
    → kind < 2 ^ 32
    → lookup path fs ≡ some (record { content = wsnap_header kind ++ rest; mtime = mtime })
    → read_snap_kind fs path ≡ some kind
unfolding read_snap_kind recognised unpack_u32 wsnap_header
read_snap_kind-wsnap fs path kind mtime rest small h = rw h (ap some (omega arith))

-- The RAM encoding below 2 ^ 32 that a file's header was packed with is the one that is read back,
-- whatever follows the header.
pub read_snap_encoding-wsnap2 :
    (fs : Files) (path : String) (encoding mtime : ℕ) (rest : Bytes)
    → encoding < 2 ^ 32
    → lookup path fs ≡ some (record { content = wsnap2_header encoding ++ rest; mtime = mtime })
    → read_snap_encoding fs path ≡ some encoding
unfolding read_snap_encoding recognised unpack_u32 wsnap2_header
read_snap_encoding-wsnap2 fs path encoding mtime rest small h = rw h (ap some (omega arith))

unpack_u32-take :
    (h : Bytes) (off : ℕ) → off + 3 < 128 → unpack_u32 (take 128 h) off ≡ unpack_u32 h off
unfolding unpack_u32
unpack_u32-take h off small = omega (
  arith,
  get_or-take 128 h off 0 (omega arith),
  get_or-take 128 h (off + 1) 0 (omega arith),
  get_or-take 128 h (off + 2) 0 (omega arith),
  get_or-take 128 h (off + 3) 0 (omega arith),
)

-- A file that is long enough and has this format's magic number and version.
pub record IsSnapshot (f : File) : Type 0 where
  pub long : 128 ≤ length f.content
  pub magic : unpack_u32 f.content 0 ≡ snap_magic
  pub version : unpack_u32 f.content 4 ≡ snap_version

module _ (off v : ℕ) where
  field_of_iff :
      (h : Bytes) (f : File)
      → length h ≡ min 128 (length f.content)
      → unpack_u32 h 0 ≡ unpack_u32 f.content 0
      → unpack_u32 h 4 ≡ unpack_u32 f.content 4
      → unpack_u32 h off ≡ unpack_u32 f.content off
      → (field_of off h ≡ some v) ↔ (IsSnapshot f × (unpack_u32 f.content off ≡ v))
  unfolding field_of recognised
  field_of_iff h f long magic version value = ground arith

  field_in_iff :
      (o : Option File)
      → off + 3 < 128
      → (field_in off o ≡ some v)
        ↔ ((f : File) × (o ≡ some f) × IsSnapshot f × (unpack_u32 f.content off ≡ v))
  unfolding field_in
  field_in_iff none small = (λ h. cc, λ (g, e, _, _). cc)
  field_in_iff (some f) small = (
    λ h. (f, refl, (both.0 h).0, (both.0 h).1),
    λ (g, e, s, u). both.1 (
        subst (λ x. IsSnapshot x × (unpack_u32 x.content off ≡ v)) (sym (some-injective f g e))
          (s, u)),
  )
    where
      both :
          (field_of off (take 128 f.content) ≡ some v)
          ↔ (IsSnapshot f × (unpack_u32 f.content off ≡ v))
      both =
          field_of_iff (take 128 f.content) f (length-take 128 f.content)
            (unpack_u32-take f.content 0 (omega arith)) (unpack_u32-take f.content 4 (omega arith))
            (unpack_u32-take f.content off small)

module _ (fs : Files) (path : String) (v : ℕ) where
  -- A KIND is read exactly when the path holds a file of at least 128 bytes with this format's
  -- magic number and version, and it is the little-endian word at offset 80.
  pub read_snap_kind_iff :
      (read_snap_kind fs path ≡ some v)
      ↔ ((f : File) × (lookup path fs ≡ some f) × IsSnapshot f × (unpack_u32 f.content 80 ≡ v))
  unfolding read_snap_kind
  read_snap_kind_iff = field_in_iff 80 v (lookup path fs) (omega arith)

  -- A RAM encoding is read exactly when the path holds a file of at least 128 bytes with this
  -- format's magic number and version, and it is the little-endian word at offset 84.
  pub read_snap_encoding_iff :
      (read_snap_encoding fs path ≡ some v)
      ↔ ((f : File) × (lookup path fs ≡ some f) × IsSnapshot f × (unpack_u32 f.content 84 ≡ v))
  unfolding read_snap_encoding
  read_snap_encoding_iff = field_in_iff 84 v (lookup path fs) (omega arith)
