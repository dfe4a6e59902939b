-- ===== src/Snap.antt =====
-- scripts/bake.py: the snapshot header as the runner reads it, and as its self-test writes it.
pub mod Header
use nether.Prelude.{
  ℕ, ◌+◌, ◌*◌, ◌/◌, ◌%◌, String, Bool, false, ◌&&◌, Option, none, some, ltb, ◌==◌, if◌then◌else◌,
  length, get_or, set, take, replicate,
}
use nether.Prelude.Dict.{lookup}
use nether.Os.{Bytes, File, Files}

abbrev pub snap_magic : ℕ
snap_magic = 0x4e534e50

abbrev pub snap_version : ℕ
snap_version = 5

abbrev pub snap_hdr_size : ℕ
snap_hdr_size = 128

abbrev pub snap_kind_base : ℕ
snap_kind_base = 0

abbrev pub snap_kind_park : ℕ
snap_kind_park = 1

abbrev pub ram_full : ℕ
ram_full = 0

abbrev pub ram_diff : ℕ
ram_diff = 1

abbrev pub ram_compressed : ℕ
ram_compressed = 2

-- struct.unpack_from("<I", h, off)[0], where the four bytes are there
unfoldable pub unpack_u32 : Bytes → ℕ → ℕ
unpack_u32 h off =
    get_or h off 0
    + 256 * get_or h (off + 1) 0
    + 65536 * get_or h (off + 2) 0
    + 16777216 * get_or h (off + 3) 0

-- struct.pack_into("<I", h, off, v), for v below 2 ^ 32
unfoldable pub pack_u32 : Bytes → ℕ → ℕ → Bytes
pack_u32 h off v =
    set (set (set (set h off (v % 256)) (off + 1) (v / 256 % 256)) (off + 2) (v / 65536 % 256))
      (off + 3) (v / 16777216)

-- The tests that both readers make on the bytes of `f.read(SNAP_HDR_SIZE)`.
recognised : Bytes → Bool
recognised h =
    if ltb (length h) snap_hdr_size
    then false
    else (unpack_u32 h 0 == snap_magic) && (unpack_u32 h 4 == snap_version)

-- The header field at `off`, read as both readers read it.
field_of : ℕ → Bytes → Option ℕ
unfolding recognised
field_of off h = if recognised h then some (unpack_u32 h off) else none

-- `none` also for a file that cannot be opened.
field_in : ℕ → Option File → Option ℕ
unfolding field_of
field_in off none = none
field_in off (some f) = field_of off (take snap_hdr_size f.content)

unfoldable pub read_snap_kind : Files → String → Option ℕ
unfolding field_in
read_snap_kind fs path = field_in 80 (lookup path fs)

unfoldable pub read_snap_encoding : Files → String → Option ℕ
unfolding field_in
read_snap_encoding fs path = field_in 84 (lookup path fs)

-- The headers that the self-test packs: `wsnap` with a KIND, `wsnap2` with a RAM encoding.
unfoldable pub wsnap_header : ℕ → Bytes
unfolding pack_u32
wsnap_header kind =
    pack_u32 (pack_u32 (pack_u32 (replicate snap_hdr_size 0) 0 snap_magic) 4 snap_version) 80 kind

unfoldable pub wsnap2_header : ℕ → Bytes
unfolding pack_u32
wsnap2_header encoding =
    pack_u32 (pack_u32 (pack_u32 (replicate snap_hdr_size 0) 0 snap_magic) 4 snap_version) 84
      encoding
