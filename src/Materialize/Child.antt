-- ===== src/Materialize/Child.antt =====
-- The file that scripts/materialize_dedup_proof.py wants: its own checks accept it.
use mathlib.Core.List.{append-nil}
use nether.Prelude.{
  ℕ, zero, suc, ◌+◌, ◌-◌, ◌*◌, ◌≤◌, ◌≡◌, refl, ap, ◌∙◌, [], ◌++◌, arith, length, take, drop,
  replicate, length-append,
}
use nether.Os.{Bytes}
use nether.Snap.{ram_full, unpack_u32, pack_u32}
use nether.Materialize.{Sizes, hdr, hdr_size, ram_off, ram, slice, unpack_u64, pack_u64}
use nether.Materialize.Pages.{pages, child_page, take-append, drop-append, length-replicate}
use nether.Materialize.Verdict.{IsChild}

unfoldable pub child_file : Sizes → Bytes
unfolding pages child_page hdr
child_file S =
    hdr S ram_full 0 0 ++ (replicate S.moff 0xcc ++ pages S.page (child_page S.npages) 0 S.npages)

length-hdr : (S : Sizes) (encoding dp base : ℕ) → length (hdr S encoding dp base) ≡ 128
unfolding hdr pack_u64 pack_u32
length-hdr S encoding dp base = refl

length-pages : (page k n : ℕ) (f : ℕ → ℕ) → length (pages page f k n) ≡ n * page
unfolding pages
length-pages page k zero f = let e : 0 * page ≡ 0 = grind arith in rw e refl
length-pages page k (suc n) f =
    let e : suc n * page ≡ page + n * page = grind arith in
    omega (
      arith,
      e,
      length-append (replicate page (f k)) (pages page f (k + 1) n),
      length-replicate page (f k),
      length-pages page (k + 1) n f,
    )

take-all : (xs ys : Bytes) (n : ℕ) → length xs ≡ n → take n (xs ++ ys) ≡ xs
take-all xs ys n e =
    let z : length xs + 0 ≡ n = omega (arith, e) in rw z at (take-append xs ys 0) ∙ append-nil xs

drop-all : (xs ys : Bytes) (m n : ℕ) → length xs + m ≡ n → drop n (xs ++ ys) ≡ drop m ys
drop-all xs ys m n e = rw e at (drop-append xs ys m)

take-whole : (xs : Bytes) (n : ℕ) → length xs ≡ n → take n xs ≡ xs
take-whole xs n e = rw (append-nil xs) at (take-all xs [] n e)

module _ (S : Sizes) where
  abbrev header : Bytes
  header = hdr S ram_full 0 0

  abbrev meta : Bytes
  meta = replicate S.moff 0xcc

  abbrev memory_pages : Bytes
  memory_pages = pages S.page (child_page S.npages) 0 S.npages

  long_enough : 108 ≤ length (child_file S)
  unfolding child_file
  long_enough =
      omega (arith, length-append header (meta ++ memory_pages), length-hdr S ram_full 0 0)

  fields :
      (unpack_u32 (child_file S) 84 ≡ ram_full)
      × (unpack_u32 (child_file S) 96 ≡ 0)
      × (unpack_u64 (child_file S) 100 ≡ 0)
  unfolding child_file unpack_u64 unpack_u32
  fields = (refl, refl, refl)

  metadata-slice : slice hdr_size (ram_off S) (child_file S) ≡ meta
  unfolding child_file
  metadata-slice =
      ap (take (128 + S.moff - 128))
        (drop-all header (meta ++ memory_pages) 0 128 (omega (arith, length-hdr S ram_full 0 0)))
      ∙ take-all meta memory_pages (128 + S.moff - 128)
          (omega (arith, length-replicate S.moff 0xcc))

  memory-slice : slice (ram_off S) (ram_off S + ram S) (child_file S) ≡ memory_pages
  unfolding child_file
  memory-slice =
      ap (take (128 + S.moff + ram S - (128 + S.moff))) (
        drop-all header (meta ++ memory_pages) S.moff (128 + S.moff)
          (omega (arith, length-hdr S ram_full 0 0))
        ∙ drop-all meta memory_pages 0 S.moff (omega (arith, length-replicate S.moff 0xcc)))
      ∙ take-whole memory_pages (128 + S.moff + ram S - (128 + S.moff))
          (omega (arith, length-pages S.page 0 S.npages (child_page S.npages)))

  -- The file that consists of the header of a full snapshot, the child's metadata and the child's pages
  -- is such a file.
  pub child_file-IsChild : IsChild S (child_file S)
  child_file-IsChild =
      let (enc, dp, brs) = fields in
      record {
        long = long_enough;
        encoding = enc;
        no_pages = dp;
        no_base = brs;
        metadata = metadata-slice;
        memory = memory-slice;
      }
