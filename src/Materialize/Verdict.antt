-- ===== src/Materialize/Verdict.antt =====
-- What scripts/materialize_dedup_proof.py accepts.
use nether.Prelude.{
  ℕ, zero, suc, ◌+◌, ◌≤◌, ◌<◌, ◌≡◌, refl, sym, ◌∙◌, ◌≢◌, ◌↔◌, Bool, true, false, ◌&&◌, Option, none,
  some, [], ◌∷◌, ◌==◌, leb, arith, if◌then◌else◌, length, replicate, Bool-cases, inl, inr, leb→le,
  le→leb,
}
use nether.Prelude.Int.{ℤ, pos, negsuc}
use nether.Prelude.Outcome.{Outcome, returned, raised, ◌>>=◌, ◌>>◌, >>=-returns}
use nether.Os.{Bytes}
use nether.Errors.{Exc, struct_error}
use nether.Snap.{ram_full, unpack_u32}
use nether.Materialize.{
  Sizes, hdr_size, ram_off, ram, unpack_u64, word_at, long_at, same, slice, assert, want, demand,
  verify, shared, written, judge, base_file, diff_file, materialize_main,
}
use nether.Materialize.Pages.{pages, child_page, want-pages}

same_iff : (xs ys : Bytes) → (same xs ys ≡ true) ↔ (xs ≡ ys)
unfolding same
same_iff [] [] = (λ _. refl, λ _. refl)
same_iff [] (y ∷ ys) = (λ h. cc, λ h. cc)
same_iff (x ∷ xs) [] = (λ h. cc, λ h. cc)
same_iff (x ∷ xs) (y ∷ ys) = ground (arith, same_iff xs ys)

-- A file with a header that says FULL, with neither changed pages nor a base, with the child's
-- metadata, and with the child's pages.
pub record IsChild (S : Sizes) (out : Bytes) : Type 0 where
  pub long : 108 ≤ length out
  pub encoding : unpack_u32 out 84 ≡ ram_full
  pub no_pages : unpack_u32 out 96 ≡ 0
  pub no_base : unpack_u64 out 100 ≡ 0
  pub metadata : slice hdr_size (ram_off S) out ≡ replicate S.moff 0xcc
  pub memory :
      slice (ram_off S) (ram_off S + ram S) out ≡ pages S.page (child_page S.npages) 0 S.npages

-- The assertions hold exactly if the three tests do.
assert_iff :
    (a b c : Bool)
    → ((do assert a; assert b; assert c) ≡ returned tt) ↔ ((a ≡ true) × (b ≡ true) × (c ≡ true))
unfolding assert
assert_iff true true true = (λ _. (refl, refl, refl), λ _. refl)
assert_iff true true false = (λ h. cc, λ h. cc)
assert_iff true false c = (λ h. cc, λ h. cc)
assert_iff false b c = (λ h. cc, λ h. cc)

header_iff :
    (a b c : ℕ) → (((a == 0) && ((b == 0) && (c == 0))) ≡ true) ↔ ((a ≡ 0) × (b ≡ 0) × (c ≡ 0))
header_iff a b c = ground arith

cut_off :
    (x y : Outcome Exc ℕ) (e : Exc) (k : ℕ → ℕ → ℕ → Outcome Exc (Unit {0}))
    → (do a ← x; b ← y; c ← raised e; k a b c) ≢ returned tt
cut_off (returned a) (returned b) e k h = cc
cut_off (returned a) (raised f) e k h = cc
cut_off (raised f) y e k h = cc

module _ (S : Sizes) (large : 101 < S.npages) where
  verify_iff : (out : Bytes) → (verify S out ≡ returned tt) ↔ IsChild S out
  unfolding verify word_at long_at demand
  verify_iff out = elim (Bool-cases (leb 108 (length out))) [
    | inl e ↦
        let l : 108 ≤ length out = leb→le 108 (length out) e in
        let e84 : leb 88 (length out) ≡ true = le→leb 88 (length out) (omega (arith, l)) in
        let e96 : leb 100 (length out) ≡ true = le→leb 100 (length out) (omega (arith, l)) in
        let tests = assert_iff _ _ _ in
        let header = header_iff (unpack_u32 out 84) (unpack_u32 out 96) (unpack_u64 out 100) in
        let meta = same_iff (slice hdr_size (ram_off S) out) (replicate S.moff 0xcc) in
        let mem = same_iff (slice (ram_off S) (ram_off S + ram S) out) (want S) in
        rw (e, e84, e96)
          (
            λ h.
                let (a, b, c) = tests.0 h in
                let (x, y, z) = header.0 a in
                record {
                  long = l;
                  encoding = x;
                  no_pages = y;
                  no_base = z;
                  metadata = meta.0 b;
                  memory = mem.0 c ∙ want-pages S large;
                },
            λ h. tests.1 (
              header.1 (h.encoding, h.no_pages, h.no_base),
              meta.1 h.metadata,
              mem.1 (h.memory ∙ sym (want-pages S large)),
            ),
          )
    | inr e ↦ (
      λ h.
          absurd
            (cut_off (word_at out 84) (word_at out 96) struct_error (demand S out) (rw e at h)),
      λ h. let t : leb 108 (length out) ≡ true = le→leb 108 (length out) h.long in cc,
    )
  ]

  judge_iff :
      (status : ℤ) (file : Option Bytes) (before after : ℕ)
      → (judge S status file before after ≡ returned 0) ↔ (
          (status ≡ pos 0)
          × (out : Bytes) × (file ≡ some out)
          × IsChild S out
          × (shared S before after ≡ true))
  unfolding judge written
  judge_iff (pos zero) (some out) before after = (
    λ h.
        let (u, v, e) = >>=-returns (verify S out) _ h in
        (refl, out, refl, (verify_iff out).0 v, ends (shared S before after) e),
    λ (_, out', e, c, s). let f : out ≡ out' = cc in rw ((verify_iff out).1 (rw f c), s) refl,
  )
    where
      ends :
          (b : Bool)
          → ◌≡◌ {A = Outcome Exc ℕ} (returned (if b then 0 else 2)) (returned 0)
          → b ≡ true
      ends true h = refl
      ends false h = absurd (ground (arith, h))
  judge_iff (pos zero) none before after = (λ h. cc, λ (_, out, e, _, _). cc)
  judge_iff (pos (suc n)) file before after =
      (λ h. absurd (ground (arith, h)), λ h. absurd (ground (arith, h.0)))
  judge_iff (negsuc n) file before after =
      (λ h. absurd (ground (arith, h)), λ h. absurd (ground (arith, h.0)))

  -- If there are more than 101 pages, and the binary runs on the base and the diff and gives a status,
  -- perhaps a file, and the free space before and after it: the script ends with status 0 exactly if
  -- the status is 0, the file is there, its header says FULL with neither changed pages nor a base, it
  -- has the child's metadata and the child's pages, and less than a quarter of a copy's size was
  -- consumed.
  pub materialize_main_iff :
      (run : Bytes → Bytes → Outcome Exc (ℤ × Option Bytes × ℕ × ℕ)) (status : ℤ)
      (file : Option Bytes) (before after : ℕ)
      → run (base_file S) (diff_file S) ≡ returned (status, file, before, after)
      → (materialize_main S run ≡ returned 0) ↔ (
          (status ≡ pos 0)
          × (out : Bytes) × (file ≡ some out)
          × IsChild S out
          × (shared S before after ≡ true))
  unfolding materialize_main
  materialize_main_iff run status file before after e = rw e (judge_iff status file before after)
