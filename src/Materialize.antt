-- ===== src/Materialize.antt =====
-- scripts/materialize_dedup_proof.py: the base and the diff that it writes, and what it demands of the
-- file that the binary materializes from them. The run of the binary and the free space of the volume
-- are parameters. What is printed is left out.
pub mod Child
pub mod Pages
pub mod Verdict
use nether.Prelude.{
  ℕ, zero, suc, ◌+◌, ◌-◌, ◌*◌, ◌/◌, ◌%◌, ◌^◌, String, ◌<>◌, Bool, true, false, not, ◌&&◌, Option,
  none, some, List, [], ◌∷◌, ◌++◌, ◌==◌, leb, ltb, if◌then◌else◌, length, take, drop, replicate,
}
use nether.Prelude.Int.{ℤ, pos, diff, leℤ}
use nether.Prelude.Outcome.{Outcome, returned, raised, ◌>>=◌, ◌>>◌}
use nether.Os.{Bytes}
use nether.Errors.{Exc, assertion_error, struct_error, os_error}
use nether.Snap.{snap_magic, snap_version, ram_full, ram_diff, pack_u32, unpack_u32}
use nether.Fuzz.{to_bytes}

-- HDR
abbrev pub hdr_size : ℕ
hdr_size = 128

-- PAGE, MOFF and NPAGES. The definitions take any sizes; these are the script's.
pub record Sizes : Type 0 where
  pub page : ℕ
  pub moff : ℕ
  pub npages : ℕ

abbrev pub script_sizes : Sizes
script_sizes = record { page = 16384; moff = 4096; npages = 4096 }

-- struct.pack_into("<Q", h, off, v), for v below 2 ^ 64
unfoldable pub pack_u64 : Bytes → ℕ → ℕ → Bytes
unfolding pack_u32
pack_u64 h off v = pack_u32 (pack_u32 h off (v % 2 ^ 32)) (off + 4) (v / 2 ^ 32)

-- struct.unpack_from("<Q", h, off)[0], where the eight bytes are there
unfoldable pub unpack_u64 : Bytes → ℕ → ℕ
unfolding unpack_u32
unpack_u64 h off = unpack_u32 h off + 2 ^ 32 * unpack_u32 h (off + 4)

-- changed
abbrev pub changed : ℕ → List (ℕ × ℕ)
changed npages = (0, 0xa1) ∷ (100, 0xa2) ∷ (npages - 1, 0xa3) ∷ []

-- ram[k*PAGE:(k+1)*PAGE] = bytes([v])*PAGE
unfoldable pub put_page : ℕ → ℕ → ℕ → Bytes → Bytes
put_page page k v ram = take (k * page) ram ++ (replicate page v ++ drop ((k + 1) * page) ram)

-- for k in range(k, k + n): base_ram[k*PAGE:(k+1)*PAGE] = bytes([k & 0xff]) * PAGE
unfoldable pub filled : ℕ → ℕ → ℕ → Bytes → Bytes
unfolding put_page
filled page k zero ram = ram
filled page k (suc n) ram = filled page (k + 1) n (put_page page k (k % 256) ram)

-- for idx, val in changed.items(): want[idx*PAGE:(idx+1)*PAGE] = bytes([val])*PAGE
unfoldable pub overlaid : ℕ → List (ℕ × ℕ) → Bytes → Bytes
unfolding put_page
overlaid page [] ram = ram
overlaid page ((k, v) ∷ ps) ram = overlaid page ps (put_page page k v ram)

-- for idx, val in changed.items(): f.write(struct.pack("<I", idx)); f.write(bytes([val])*PAGE)
unfoldable pub diff_pages : ℕ → List (ℕ × ℕ) → Bytes
diff_pages page [] = []
diff_pages page ((k, v) ∷ ps) = to_bytes 4 k ++ (replicate page v ++ diff_pages page ps)

-- struct.unpack_from raises where the bytes are not there.
unfoldable pub word_at : Bytes → ℕ → Outcome Exc ℕ
word_at out off =
    if leb (off + 4) (length out) then returned (unpack_u32 out off) else raised struct_error

unfoldable pub long_at : Bytes → ℕ → Outcome Exc ℕ
unfolding unpack_u64
long_at out off =
    if leb (off + 8) (length out) then returned (unpack_u64 out off) else raised struct_error

same : Bytes → Bytes → Bool
same [] [] = true
same (x ∷ xs) (y ∷ ys) = (x == y) && same xs ys
same [] (y ∷ ys) = false
same (x ∷ xs) [] = false

-- out[a:b]
abbrev pub slice : ℕ → ℕ → Bytes → Bytes
slice a b out = take (b - a) (drop a out)

-- assert b
assert : Bool → Outcome Exc (Unit {0})
assert true = returned tt
assert false = raised assertion_error

module _ (S : Sizes) where
  open S use {page, moff, npages}

  abbrev pub ram_off : ℕ
  ram_off = hdr_size + moff

  abbrev pub ram : ℕ
  ram = npages * page

  unfoldable pub hdr : ℕ → ℕ → ℕ → Bytes
  unfolding pack_u64 pack_u32
  hdr encoding dp base =
      let h0 = pack_u32 (replicate hdr_size 0) 0 snap_magic in
      let h1 = pack_u32 h0 4 snap_version in
      let h2 = pack_u64 h1 24 ram in
      let h3 = pack_u64 h2 48 ram_off in
      let h4 = pack_u32 h3 84 encoding in let h5 = pack_u32 h4 96 dp in pack_u64 h5 100 base

  unfoldable pub base_ram : Bytes
  unfolding filled
  base_ram = filled page 0 npages (replicate ram 0)

  unfoldable pub base_file : Bytes
  unfolding hdr base_ram
  base_file = hdr ram_full 0 0 ++ (replicate moff 0xbb ++ base_ram)

  unfoldable pub diff_file : Bytes
  unfolding hdr diff_pages
  diff_file =
      hdr ram_diff (length (changed npages)) ram
      ++ (replicate moff 0xcc ++ diff_pages page (changed npages))

  -- want
  unfoldable pub want : Bytes
  unfolding overlaid base_ram
  want = overlaid page (changed npages) base_ram

  -- The three assertions on the file, from its fields.
  demand : Bytes → ℕ → ℕ → ℕ → Outcome Exc (Unit {0})
  unfolding same assert want
  demand out enc dp brs = do
    assert ((enc == ram_full) && ((dp == 0) && (brs == 0)))
    assert (same (slice hdr_size ram_off out) (replicate moff 0xcc))
    assert (same (slice ram_off (ram_off + ram) out) want)

  unfoldable pub verify : Bytes → Outcome Exc (Unit {0})
  unfolding word_at long_at demand
  verify out = do
    enc ← word_at out 84
    dp ← word_at out 96
    brs ← long_at out 100
    demand out enc dp brs

  -- shared: whether less of the volume was consumed than a quarter of a copy. The arguments are the
  -- free space before and after.
  unfoldable pub shared : ℕ → ℕ → Bool
  shared before after = not (leℤ (pos ((ram_off + ram) / 4)) (diff before after))

  -- What the binary leaves: the file if it is there, or an OSError where it is opened.
  written : Option Bytes → Outcome Exc Bytes
  written none = raised os_error
  written (some out) = returned out

  -- The script after the binary has run, from its status, the file that it writes, and the free space
  -- before and after it.
  unfoldable pub judge : ℤ → Option Bytes → ℕ → ℕ → Outcome Exc ℕ
  unfolding verify shared written
  judge (pos zero) file before after = do
    out ← written file
    verify out
    returned (if shared before after then 0 else 2)
  judge status file before after = returned 1

  -- The script, from what the run of the binary on the two files gives.
  unfoldable pub materialize_main :
      (Bytes → Bytes → Outcome Exc (ℤ × Option Bytes × ℕ × ℕ)) → Outcome Exc ℕ
  unfolding base_file diff_file judge
  materialize_main run = do r ← run base_file diff_file; judge r.0 r.1 r.2 r.3
