-- ===== src/Fuzz/Verdict.antt =====
-- The verdict of scripts/fuzz_restore.py over its mutants.
use nether.Prelude.{
  ℕ, ◌+◌, String, ◌≡◌, refl, ◌≢◌, ◌↔◌, Bool, true, false, Option, some, List, [], ◌∷◌, ◌++◌, arith,
  ltb, ap, inl, inr, Bool-cases, if◌then◌else◌, length,
}
use nether.Prelude.Int.{ℤ}
use nether.Prelude.Outcome.{returned}
use nether.Os.{Bytes}
use nether.Fuzz.{
  Random, Mutant, Class, accepted, rejected, crash, hang, classify, Tally, count, Failure,
  is_accepted, is_crash, validate_all, restore_crashes, pristine_fails, parser_fails, restore_fails,
  fails_of, status_of, fuzz, mutants,
}

-- A run that fails closed: it ends, and nether does not crash.
abbrev pub IsClosed : Class → Type 0
IsClosed c = (c ≢ crash) × (c ≢ hang)

-- All mutants of the list have the property.
abbrev pub AllMutants : (Bytes → Type 0) → List Mutant → Type 0
AllMutants P [] = Unit
AllMutants P (m ∷ ms) = P m.1 × AllMutants P ms

abbrev NoneBad : Tally → Type 0
NoneBad t = (t.crashes ≡ 0) × (t.hangs ≡ 0)

count-IsClosed : (c : Class) (t : Tally) → NoneBad (count c t) ↔ (IsClosed c × NoneBad t)
unfolding count
count-IsClosed accepted t = (λ h. ((λ e. cc, λ e. cc), h), λ h. h.1)
count-IsClosed rejected t = (λ h. ((λ e. cc, λ e. cc), h), λ h. h.1)
count-IsClosed crash t = (λ h. absurd (omega (arith, h.0)), λ h. absurd (h.0.0 refl))
count-IsClosed hang t = (λ h. absurd (omega (arith, h.1)), λ h. absurd (h.0.1 refl))

module _ (validate restore : Bytes → Option (ℤ × String)) where
  validate_all-IsClosed :
      (ms : List Mutant) (t : Tally)
      → NoneBad (validate_all validate restore ms t)
        ↔ (AllMutants (λ b. IsClosed (classify (validate b))) ms × NoneBad t)
  unfolding validate_all
  validate_all-IsClosed [] t = (λ h. (tt, h), λ h. h.1)
  validate_all-IsClosed (m ∷ ms) t =
      let step = validate_all-IsClosed ms (count (classify (validate m.1)) t) in
      let once = count-IsClosed (classify (validate m.1)) t in
      (
        λ h.
            let (rest, bad) = step.0 h in
            let (closed, before) = once.0 bad in ((closed, rest), before),
        λ ((closed, rest), before). step.1 (rest, once.1 (closed, before)),
      )

  restore_crashes-none :
      (ms : List Mutant)
      → (restore_crashes validate restore ms ≡ 0)
        ↔ AllMutants (λ b. classify (restore b) ≢ crash) ms
  unfolding restore_crashes is_crash
  restore_crashes-none [] = (λ _. tt, λ _. refl)
  restore_crashes-none (m ∷ ms) =
      added (classify (restore m.1)) (restore_crashes validate restore ms) (restore_crashes-none ms)
    where
      added :
          {P : Type 0} (c : Class) (n : ℕ)
          → ((n ≡ 0) ↔ P)
          → ((if is_crash c then n + 1 else n) ≡ 0) ↔ ((c ≢ crash) × P)
      added crash n p = (λ h. absurd (omega arith), λ h. absurd (h.0 refl))
      added accepted n p = (λ h. (λ e. cc, p.0 h), λ h. p.1 h.1)
      added rejected n p = (λ h. (λ e. cc, p.0 h), λ h. p.1 h.1)
      added hang n p = (λ h. (λ e. cc, p.0 h), λ h. p.1 h.1)

  -- No failure is noted exactly if all three tests pass.
  status_of_iff :
      (x y z : Bool) (f g h : Failure)
      → (status_of (
            (if x then [] else f ∷ [])
            ++ ((if y then [] else g ∷ []) ++ (if z then [] else h ∷ [])))
          ≡ 0)
        ↔ ((x ≡ true) × (y ≡ true) × (z ≡ true))
  unfolding status_of
  status_of_iff true true true f g h = (λ _. (refl, refl, refl), λ _. refl)
  status_of_iff true true false f g h = (λ e. absurd (omega arith), λ e. cc)
  status_of_iff true false z f g h = (λ e. absurd (omega arith), λ e. cc)
  status_of_iff false y z f g h = (λ e. absurd (omega arith), λ e. cc)

  is_accepted_iff : (c : Class) → (is_accepted c ≡ true) ↔ (c ≡ accepted)
  unfolding is_accepted
  is_accepted_iff accepted = (λ _. refl, λ _. refl)
  is_accepted_iff rejected = (λ h. cc, λ h. cc)
  is_accepted_iff crash = (λ h. cc, λ h. cc)
  is_accepted_iff hang = (λ h. cc, λ h. cc)

  abbrev start : Tally
  start = record { accepts = 0; rejects = 0; crashes = 0; hangs = 0 }

  fails_of_iff :
      (good : Bytes) (ms subset : List Mutant)
      → (status_of (fails_of validate restore good ms subset) ≡ 0) ↔ (
          (classify (validate good) ≡ accepted)
          × AllMutants (λ b. IsClosed (classify (validate b))) ms
          × AllMutants (λ b. classify (restore b) ≢ crash) subset)
  unfolding fails_of pristine_fails parser_fails restore_fails
  fails_of_iff good ms subset =
      let t = validate_all validate restore ms start in
      let tests = status_of_iff _ _ _ _ _ _ in
      (
        λ e.
            let (x, y, z) = tests.0 e in
            (
              (is_accepted_iff (classify (validate good))).0 x,
              ((validate_all-IsClosed ms start).0 (ground (arith, y))).0,
              (restore_crashes-none subset).0 (ground (arith, z)),
            ),
        λ (x, y, z).
            let (c, h) = (validate_all-IsClosed ms start).1 (y, (refl, refl)) in
            let r = (restore_crashes-none subset).1 z in
            tests.1 (
              (is_accepted_iff (classify (validate good))).1 x,
              ground (arith, c, h),
              ground (arith, r),
            ),
      )

  module _ (show : ℕ → String) (R : Random) (live : ℕ) (good : Bytes) (s t : R.State)
      (ms : List Mutant) (drawn : mutants show R good s ≡ (returned ms, t)) where
    -- The mutants that are restored too.
    abbrev pub subset : List Mutant
    subset =
        if ltb 0 live
        then (R.sample ms (if ltb live (length ms) then live else length ms) t).0
        else []

    fuzz-status :
        (fuzz validate restore show R live (some good) s).0
        ≡ returned (status_of (fails_of validate restore good ms subset))
    unfolding fuzz
    fuzz-status =
        rw drawn (elim (Bool-cases (ltb 0 live)) [ inl on ↦ rw on refl | inr off ↦ rw off refl ])

    -- With a base snapshot and the mutants drawn, the fuzzer exits with 0 exactly if the snapshot
    -- itself is accepted, no mutant is classified CRASH or HANG when it is validated, and none of the
    -- subset is classified CRASH when it is restored.
    pub fuzz_iff : ((fuzz validate restore show R live (some good) s).0 ≡ returned 0) ↔ (
        (classify (validate good) ≡ accepted)
        × AllMutants (λ b. IsClosed (classify (validate b))) ms
        × AllMutants (λ b. classify (restore b) ≢ crash) subset)
    fuzz_iff = rw fuzz-status (
      λ e. (fails_of_iff good ms subset).0 (cc),
      λ v. ap returned ((fails_of_iff good ms subset).1 v),
    )
