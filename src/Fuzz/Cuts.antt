-- ===== src/Fuzz/Cuts.antt =====
-- The truncations of scripts/fuzz_restore.py, and its classification of a run.
use nether.Prelude.{
  ℕ, ◌≤◌, ◌<◌, String, ◌≡◌, refl, ◌≢◌, ◌↔◌, ◌⊎◌, inl, inr, Bool, true, false, ◌||◌, some, List, [],
  ◌∷◌, arith, Bool-cases, length, take, Among, here, there,
}
use nether.Prelude.Int.{ℤ, pos, negsuc}
use nether.Os.{Bytes}
use nether.Vm.{contains}
use nether.Fuzz.{accepted, crash, hang, died, any_in, markers, classify_ended, classify}

-- Each number is less than all that follow.
abbrev pub AllAbove : ℕ → List ℕ → Type 0
AllAbove k [] = Unit
AllAbove k (j ∷ js) = (k < j) × AllAbove k js

abbrev pub IsIncreasing : List ℕ → Type 0
IsIncreasing [] = Unit
IsIncreasing (k ∷ ks) = AllAbove k ks × IsIncreasing ks

-- The content is a cut at one of the numbers.
abbrev pub IsCut : Bytes → List ℕ → Bytes → Type 0
IsCut good ks b = (k : ℕ) × Among k ks × (k ≤ length good) × (b ≡ take k good)

-- Some text of the list is in the text.
abbrev pub Mentions : List String → String → Type 0
Mentions ms low = (m : String) × Among m ms × (contains m low ≡ true)

any_in-Mentions : (ms : List String) (low : String) → (any_in ms low ≡ true) ↔ Mentions ms low
unfolding any_in
any_in-Mentions [] low = (λ h. cc, λ (m, k, h). elim k [ ])
any_in-Mentions (m ∷ ms) low = (
  λ h. elim (Bool-cases (contains m low)) [
    | inl found ↦ (m, here, found)
    | inr missing ↦ let (n, k, q) = (any_in-Mentions ms low).0 (rw missing at h) in (n, there k, q)
  ],
  λ (n, k, q). later (any_in-Mentions ms low).1 n k q,
)
  where
    later :
        (Mentions ms low → any_in ms low ≡ true)
        → (n : String) → Among n (m ∷ ms)
        → contains n low ≡ true
        → (contains m low || any_in ms low) ≡ true
    later rest n here q = rw q refl
    later rest n (there k) q = rw (rest (n, k, q)) (either (contains m low))
      where
        either : (b : Bool) → (b || true) ≡ true
        either true = refl
        either false = refl

-- Killed by a signal, or with one of the four statuses that a shell gives for that.
abbrev pub IsDeath : ℤ → Type 0
IsDeath (negsuc n) = Unit
IsDeath (pos n) = (n ≡ 132) ⊎ ((n ≡ 133) ⊎ ((n ≡ 134) ⊎ (n ≡ 139)))

died-IsDeath : (status : ℤ) → (died status ≡ true) ↔ IsDeath status
unfolding died
died-IsDeath (negsuc n) = (λ h. tt, λ h. refl)
died-IsDeath (pos n) = ground arith

either_iff :
    {P Q : Type 0} (x y : Bool) → ((x ≡ true) ↔ P) → ((y ≡ true) ↔ Q) → ((x || y) ≡ true) ↔ (P ⊎ Q)
either_iff true y p q = (λ _. inl (p.0 refl), λ _. refl)
either_iff false y p q =
    (λ h. inr (q.0 h), λ v. elim v [ inl a ↦ absurd (ground (arith, p.1 a)) | inr b ↦ q.1 b ])

ended_crash_iff : (b : Bool) (status : ℤ) → (classify_ended b status ≡ crash) ↔ (b ≡ true)
unfolding classify_ended
ended_crash_iff true status = (λ _. refl, λ _. refl)
ended_crash_iff false (pos n) = ground arith
ended_crash_iff false (negsuc n) = (λ h. cc, λ h. cc)

ended_accepted_iff :
    (b : Bool) (status : ℤ)
    → (classify_ended b status ≡ accepted) ↔ ((b ≡ false) × (status ≡ pos 0))
unfolding classify_ended
ended_accepted_iff true status = (λ h. cc, λ h. cc)
ended_accepted_iff false (pos n) = ground arith
ended_accepted_iff false (negsuc n) = (λ h. cc, λ h. cc)

ended_ne-hang : (b : Bool) (status : ℤ) → classify_ended b status ≢ hang
unfolding classify_ended
ended_ne-hang true status = λ h. cc
ended_ne-hang false (pos n) = λ h. ground arith
ended_ne-hang false (negsuc n) = λ h. cc

module _ (status : ℤ) (low : String) where
  shows_iff : ((died status || any_in markers low) ≡ true) ↔ (IsDeath status ⊎ Mentions markers low)
  shows_iff =
      either_iff (died status) (any_in markers low) (died-IsDeath status)
        (any_in-Mentions markers low)

  -- classify says CRASH of a run that ends exactly if the run died or its output has one of the
  -- markers, it says accepted exactly if the status is 0 and the output has none, and it never says
  -- HANG.
  pub classify_iff :
      ((classify (some (status, low)) ≡ crash) ↔ (IsDeath status ⊎ Mentions markers low))
      × ((classify (some (status, low)) ≡ accepted)
          ↔ ((status ≡ pos 0) × (Mentions markers low → ⊥)))
      × (classify (some (status, low)) ≢ hang)
  unfolding classify
  classify_iff =
      let shows = died status || any_in markers low in
      (
        (
          λ h. shows_iff.0 ((ended_crash_iff shows status).0 h),
          λ v. (ended_crash_iff shows status).1 (shows_iff.1 v),
        ),
        (
          λ h.
              let (silent, clean) = (ended_accepted_iff shows status).0 h in
              (clean, λ m. absurd (ground (arith, silent, shows_iff.1 (inr m)))),
          λ (clean, unsaid). (ended_accepted_iff shows status).1 (quiet clean unsaid, clean),
        ),
        ended_ne-hang shows status,
      )
    where
      quiet :
          status ≡ pos 0 → (Mentions markers low → ⊥) → (died status || any_in markers low) ≡ false
      quiet clean unsaid = elim (Bool-cases (died status || any_in markers low)) [
        | inl shows ↦ elim (shows_iff.0 shows) [
          | inl death ↦ absurd (alive status clean death)
          | inr said ↦ absurd (unsaid said)
        ]
        | inr silent ↦ silent
      ]
        where
          alive : (s : ℤ) → s ≡ pos 0 → IsDeath s → ⊥
          alive (negsuc n) e d = cc
          alive (pos n) e d = ground arith
