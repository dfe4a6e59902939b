-- ===== src/Fuzz/Base/Ends.antt =====
-- main of scripts/fuzz_restore.py as a whole, from the binary's check to its status.
use nether.Prelude.{
  ℕ, String, ◌≡◌, ◌≢◌, ◌↔◌, refl, ap, ◌∙◌, true, ltb, Option, some, List, Bool-cases, inl, inr,
}
use nether.Prelude.Int.{ℤ}
use nether.Prelude.Outcome.{Outcome, returned, raised}
use nether.Prelude.Action.{resume}
use nether.Os.{Bytes}
use nether.Errors.{Exc}
use nether.Lab.{Site, Lab, Script, Trace, removed_tree, made_folder, after_act}
use nether.Lab.Reads.Framed.{as_stop}
use nether.Serve.{Place}
use nether.Fuzz.{Random, Mutant, mutants, classify, accepted, crash, fuzz}
use nether.Fuzz.Verdict.{IsClosed, AllMutants, subset, fuzz_iff}
use nether.Fuzz.Base.{
  bake_base, fuzz_main, main_over, with_snapshot, with_bytes, read_bytes, parse_folder, live_folder,
}

as_stop_iff : (r : Outcome Exc ℕ) → (as_stop r ≡ returned 0) ↔ (r ≡ returned 0)
as_stop_iff (returned n) = (λ e. cc, λ e. cc)
as_stop_iff (raised e) = (λ h. cc, λ h. cc)

module _ {X : Type 0} (L : Site X) (P : Place) where
  -- The state in which the base is baked.
  abbrev pub fresh : Lab X → Lab X
  fresh w = after_act L (made_folder P.work) (after_act L (removed_tree P.work) w)

module _ {X : Type 0} (L : Site X) (P : Place) (content : Trace → String → Option Bytes)
    (validate restore : Bytes → Option (ℤ × String)) (show : ℕ → String) (R : Random)
    (live : ℕ) where
  module _ (w w' : Lab X) (p : String) (good : Bytes) (s t : R.State) (ms : List Mutant)
      (drawn : mutants show R good s ≡ (returned ms, t)) where
    -- What a mutant's run must not be, and what the snapshot's must be.
    abbrev pub FailsClosed : Type 0
    FailsClosed =
        (classify (validate good) ≡ accepted)
        × AllMutants (λ b. IsClosed (classify (validate b))) ms
        × AllMutants (λ b. classify (restore b) ≢ crash)
            (subset validate restore show R live good s t ms drawn)

    read_bytes-held :
        content w'.trace p ≡ some good → read_bytes L P content p w' ≡ (returned good, w')
    unfolding read_bytes
    read_bytes-held held = rw (held, read_bytes) refl

    with_bytes-status :
        (with_bytes L P content validate restore show R live s good w').0
        ≡ as_stop (fuzz validate restore show R live (some good) s).0
    unfolding with_bytes live_folder parse_folder
    with_bytes-status = elim (Bool-cases (ltb 0 live)) [ inl e ↦ rw e refl | inr e ↦ rw e refl ]

    with_snapshot-reads :
        content w'.trace p ≡ some good
        → (with_snapshot L P content validate restore show R live s (some p) w').0
          ≡ as_stop (fuzz validate restore show R live (some good) s).0
    unfolding with_snapshot
    with_snapshot-reads held =
        ap (λ r. (resume r.0 (with_bytes L P content validate restore show R live s) r.1).0)
          (read_bytes-held held)
        ∙ with_bytes-status

    main_over_iff :
        (baking : Script X (Option String))
        → L.present w.trace w.clock P.bin ≡ true
        → baking (fresh L P w) ≡ (returned (some p), w')
        → content w'.trace p ≡ some good
        → ((main_over L P content validate restore show R live s baking w).0 ≡ returned 0)
          ↔ FailsClosed
    unfolding main_over
    main_over_iff baking built baked held =
        let r = fuzz validate restore show R live (some good) s in
        let v = fuzz_iff validate restore show R live good s t ms drawn in
        rw (built, baked)
          (rw (with_snapshot-reads held)
            (λ h. v.0 ((as_stop_iff r.0).0 h), λ h. (as_stop_iff r.0).1 (v.1 h)))

    -- If the binary is there, bake_base returns a path, the file there can be read, and the mutants are
    -- drawn, then main ends with status 0 exactly if the snapshot itself is accepted, no mutant is
    -- classified CRASH or HANG when it is validated, and none of the subset is classified CRASH when it
    -- is restored.
    pub fuzz_main_iff :
        L.present w.trace w.clock P.bin ≡ true
        → bake_base L P content (fresh L P w) ≡ (returned (some p), w')
        → content w'.trace p ≡ some good
        → ((fuzz_main L P content validate restore show R live s w).0 ≡ returned 0) ↔ FailsClosed
    unfolding fuzz_main
    fuzz_main_iff = main_over_iff (bake_base L P content)
