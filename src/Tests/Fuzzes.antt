-- ===== src/Tests/Fuzzes.antt =====
-- The theorems on the fuzzer at a short snapshot.
use nether.Prelude.{
  ℕ, String, ◌≡◌, ◌≢◌, ◌↔◌, ◌⊎◌, ap, refl, true, ◌+◌, List, Option, some, Among, arith, replicate,
}
use nether.Prelude.Int.{ℤ, pos}
use nether.Prelude.Outcome.{returned}
use nether.Os.{Bytes}
use nether.Fuzz.{Random, Mutant, mutants, classify, accepted, crash, hang, markers}
use nether.Fuzz.Layout.{HeaderField, IsExtreme}
use nether.Fuzz.Fields.{IsField, mutants-IsField}
use nether.Fuzz.Cuts.{IsDeath, Mentions, classify_iff}
use nether.Fuzz.Base.{bake_base, fuzz_main}
use nether.Fuzz.Base.Ends.{fresh, FailsClosed, fuzz_main_iff}
use nether.Wire.{has, read_until, after}
use nether.Lab.{Site, Lab, Trace}
use nether.Tests.Labs.{site, begin, place}

abbrev show : ℕ → String
show n = "n"

-- Each draw gives the lower bound, and a sample is the whole list.
abbrev random : Random
random = record { State = ℕ; below = λ lo hi s. (lo, s + 1); sample = λ ms n s. (ms, s) }

abbrev snapshot : Bytes
snapshot = replicate 96 7

mutants-IsField_example :
    (ms : List Mutant) × ((mutants show random snapshot 0).0 ≡ returned ms)
    × ((off w v : ℕ)
        → HeaderField off w
        → IsExtreme v
        → (name : String) × (b : Bytes) × Among (name, b) ms × IsField snapshot off w v b)
mutants-IsField_example = mutants-IsField show random snapshot 0 (omega arith)

classify_iff_example :
    ((classify (some (pos 1, "thread panic")) ≡ crash)
      ↔ (IsDeath (pos 1) ⊎ Mentions markers "thread panic"))
    × ((classify (some (pos 1, "thread panic")) ≡ accepted)
        ↔ ((pos 1 ≡ pos 0) × (Mentions markers "thread panic" → ⊥)))
    × (classify (some (pos 1, "thread panic")) ≢ hang)
classify_iff_example = classify_iff (pos 1) "thread panic"

-- A binary that rejects every file.
abbrev validate : Bytes → Option (ℤ × String)
validate b = some (pos 1, "rejected")

all_drawn : (ms : List Mutant) × ((mutants show random snapshot 0).0 ≡ returned ms)
all_drawn = let (ms, e, made) = mutants-IsField show random snapshot 0 (omega arith) in (ms, e)

-- Every file has the snapshot's bytes.
abbrev held : Trace → String → Option Bytes
held t p = some snapshot

abbrev host : Site (Unit {0})
host = site "OK ready" true (λ x. x)

abbrev baked : Lab (Unit {0})
baked = (bake_base host place held (fresh host place (begin tt))).1

abbrev draw :
    (mutants show random snapshot 0) ≡ (returned all_drawn.0, (mutants show random snapshot 0).1)
draw = ap (λ r. (r, (mutants show random snapshot 0).1)) all_drawn.1

fuzz_main_iff_example :
    ((fuzz_main host place held validate validate show random 2 0 (begin tt)).0 ≡ returned 0)
    ↔ FailsClosed host place held validate validate show random 2
        (begin tt)
        baked
        "/w/base/base.snap"
        snapshot
        0
        (mutants show random snapshot 0).1
        all_drawn.0
        draw
unfolding bake_base has read_until after
fuzz_main_iff_example =
    fuzz_main_iff host place held validate validate show random 2 (begin tt) baked
      "/w/base/base.snap" snapshot 0 (mutants show random snapshot 0).1 all_drawn.0 draw refl refl
      refl
