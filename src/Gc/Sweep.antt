-- ===== src/Gc/Sweep.antt =====
-- The shared loop of the collectors: each round's verdict is the one that the first files give,
-- and the files that go are those of the paths it reports.
use text.Mathlib.TextLemmas.{append_cancel_right}
use nether.Prelude.{
  String, ◌≡◌, refl, ◌≢◌, Bool, true, false, ◌&&◌, ◌||◌, Option, none, some, List, [], ◌∷◌, arith,
  str_eq, eq_iff, if◌then◌else◌,
}
use nether.Prelude.Outcome.{Outcome, returned, raised}
use nether.Prelude.Dict.{lookup, lookup-erase}
use nether.Os.{Files, Os, remove}
use nether.Errors.{Exc}
use nether.Manifest.{manifest_path}
use nether.Gc.{report, reap, sweep}

pub manifest_path-injective : (s t : String) → manifest_path s ≡ manifest_path t → s ≡ t
unfolding manifest_path
manifest_path-injective s t h = append_cancel_right s t ".manifest.json" h

module _ (o : Os) where
  lookup-remove :
      (p j : String) (fs : Files)
      → lookup j (remove o p fs) ≡ (if str_eq p j && o.removable j then none else lookup j fs)
  unfolding remove
  lookup-remove p j fs = ground (arith, eq_iff p j, lookup-erase p j fs)

  -- The paths that reaping `snap` removes.
  abbrev pub reaps : String → String → Bool
  reaps snap j = (str_eq snap j || str_eq (manifest_path snap) j) && o.removable j

  pub lookup-reap :
      (snap j : String) (fs : Files)
      → lookup j (reap o snap fs) ≡ (if reaps snap j then none else lookup j fs)
  unfolding reap
  lookup-reap snap j fs =
      ground
        (arith, lookup-remove (manifest_path snap) j (remove o snap fs), lookup-remove snap j fs)

-- No path of the list is another's manifest, and no path stands twice. What `glob` returns for
-- "*.snap" is such a list.
abbrev pub Clear : String → List String → Type 0
Clear s [] = Unit
Clear s (t ∷ ts) = (s ≢ t) × (manifest_path s ≢ t) × (s ≢ manifest_path t) × Clear s ts

abbrev pub Apart : List String → Type 0
Apart [] = Unit
Apart (s ∷ ss) = Clear s ss × Apart ss

-- A verdict depends on the file at the path and on its manifest.
abbrev pub IsLocal : {L : Type 0} → (Files → String → Outcome Exc (Option L)) → Type 0
IsLocal judge =
    (fs fs' : Files) (s : String)
    → lookup s fs ≡ lookup s fs'
    → lookup (manifest_path s) fs ≡ lookup (manifest_path s) fs'
    → judge fs s ≡ judge fs' s

-- The two states agree on what the verdicts on the listed paths depend on.
abbrev Agree : Files → Files → List String → Type 0
Agree fs fs' [] = Unit
Agree fs fs' (s ∷ ss) =
    (lookup s fs ≡ lookup s fs')
    × (lookup (manifest_path s) fs ≡ lookup (manifest_path s) fs')
    × Agree fs fs' ss

-- The report by the verdicts that one state of the files gives.
unfoldable pub verdicts :
    {L : Type 0}
    → (Files → String → Outcome Exc (Option L))
    → Files
    → List String
    → Outcome Exc (List L)
unfolding report
verdicts judge fs [] = returned []
verdicts judge fs (s ∷ ss) =
    let rest = verdicts judge fs ss in
    elim (judge fs s) [
      | raised e ↦ raised e
      | returned none ↦ rest
      | returned (some line) ↦ report line rest
    ]

module _ (o : Os) {L : Type 0} (judge : Files → String → Outcome Exc (Option L)) where
  -- The files that go: those of the reported paths before the first that raises.
  unfoldable pub gone : Files → List String → String → Bool
  gone fs [] j = false
  gone fs (s ∷ ss) j =
      let rest = gone fs ss j in
      elim (judge fs s) [
        | raised e ↦ false
        | returned none ↦ rest
        | returned (some line) ↦ reaps o s j || rest
      ]

module _ (o : Os) {L : Type 0} (judge : Files → String → Outcome Exc (Option L))
    (local : IsLocal judge) where
  verdicts-Agree :
      (fs fs' : Files) (ss : List String)
      → Agree fs fs' ss
      → verdicts judge fs ss ≡ verdicts judge fs' ss
  unfolding verdicts
  verdicts-Agree fs fs' [] _ = refl
  verdicts-Agree fs fs' (s ∷ ss) (a, b, rest) =
      ground (arith, local fs fs' s a b, verdicts-Agree fs fs' ss rest)

  gone-Agree :
      (fs fs' : Files) (ss : List String) (j : String)
      → Agree fs fs' ss
      → gone o judge fs ss j ≡ gone o judge fs' ss j
  unfolding gone
  gone-Agree fs fs' [] j _ = refl
  gone-Agree fs fs' (s ∷ ss) j (a, b, rest) =
      ground (arith, local fs fs' s a b, gone-Agree fs fs' ss j rest)

  Agree-reap : (s : String) (fs : Files) (ss : List String) → Clear s ss → Agree (reap o s fs) fs ss
  Agree-reap s fs [] _ = tt
  Agree-reap s fs (t ∷ ts) (a, b, c, rest) = (
    ground (arith, lookup-reap o s t fs, eq_iff s t, eq_iff (manifest_path s) t),
    ground (
      arith,
      lookup-reap o s (manifest_path t) fs,
      eq_iff s (manifest_path t),
      eq_iff (manifest_path s) (manifest_path t),
      manifest_path-injective s t,
    ),
    Agree-reap s fs ts rest,
  )

  -- The report is the one that the first files' verdicts give, in a dry run too.
  pub sweep-reports :
      (dry : Bool) (ss : List String) (fs : Files)
      → Apart ss
      → (sweep o judge dry ss fs).0 ≡ verdicts judge fs ss
  unfolding sweep verdicts
  sweep-reports dry [] fs _ = refl
  sweep-reports dry (s ∷ ss) fs (c, a) = ground (
    arith,
    sweep-reports dry ss fs a,
    sweep-reports dry ss (reap o s fs) a,
    verdicts-Agree (reap o s fs) fs ss (Agree-reap s fs ss c),
  )

  pub sweep_dry : (ss : List String) (fs : Files) → (sweep o judge true ss fs).1 ≡ fs
  unfolding sweep
  sweep_dry [] fs = refl
  sweep_dry (s ∷ ss) fs = ground (arith, sweep_dry ss fs)

  -- After a real sweep exactly the files that go are missing, and the others are as they were.
  pub lookup-sweep :
      (ss : List String) (fs : Files) (j : String)
      → Apart ss
      → lookup j (sweep o judge false ss fs).1
        ≡ (if gone o judge fs ss j then none else lookup j fs)
  unfolding sweep gone
  lookup-sweep [] fs j _ = refl
  lookup-sweep (s ∷ ss) fs j (c, a) = ground (
    arith,
    lookup-sweep ss fs j a,
    lookup-sweep ss (reap o s fs) j a,
    gone-Agree (reap o s fs) fs ss j (Agree-reap s fs ss c),
    lookup-reap o s j fs,
  )
