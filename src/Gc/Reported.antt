-- ===== src/Gc/Reported.antt =====
-- Which files a sweep takes away: those of the reported paths.
use nether.Prelude.{
  String, ◌≡◌, refl, ◌∙◌, ◌≢◌, ◌⊎◌, inl, inr, true, false, Option, none, some, List, [], ◌∷◌, arith,
  eq_iff, Bool-cases, Option-cases, Among, here, there,
}
use nether.Prelude.Outcome.{Outcome, Outcome-cases, returned, raised}
use nether.Prelude.Dict.{lookup}
use nether.Os.{Files, Os}
use nether.Errors.{Exc}
use nether.Manifest.{manifest_path}
use nether.Gc.{sweep}
use nether.Gc.Sweep.{reaps, gone, verdicts, IsLocal, Apart, lookup-sweep}

module _ (o : Os) {L : Type 0} (judge : Files → String → Outcome Exc (Option L)) where
  -- A listed path that is reported, and whose reaping takes `j` away.
  abbrev pub Reported : Files → List String → String → Type 0
  Reported fs ss j =
      (s : String) × (line : L) × Among s ss
      × (judge fs s ≡ returned (some line))
      × (reaps o s j ≡ true)

  Reported-step :
      (fs : Files) (s : String) (ss : List String) (j : String)
      → (gone o judge fs ss j ≡ true → Reported fs ss j)
      → (v : Outcome Exc (Option L)) → judge fs s ≡ v
      → gone o judge fs (s ∷ ss) j ≡ true
      → Reported fs (s ∷ ss) j
  unfolding gone
  Reported-step fs s ss j later (raised e) q h = absurd (ground arith)
  Reported-step fs s ss j later (returned none) q h =
      let (t, line, m, e, r) = later (ground arith) in (t, line, there m, e, r)
  Reported-step fs s ss j later (returned (some line)) q h = elim (Bool-cases (reaps o s j)) [
    | inl r ↦ (s, line, here, q, r)
    | inr r ↦ let (t, line', m, e, r') = later (ground arith) in (t, line', there m, e, r')
  ]

  -- What goes was reported for a listed path.
  pub gone-Reported :
      (fs : Files) (ss : List String) (j : String) → gone o judge fs ss j ≡ true → Reported fs ss j
  unfolding gone
  gone-Reported fs [] j h = cc
  gone-Reported fs (s ∷ ss) j h =
      Reported-step fs s ss j (gone-Reported fs ss j) (judge fs s) refl h

  verdicts-tail :
      (fs : Files) (s : String) (ss : List String) {lines : List L}
      → verdicts judge fs (s ∷ ss) ≡ returned lines
      → (rest : List L) × (verdicts judge fs ss ≡ returned rest)
  unfolding verdicts
  verdicts-tail fs s ss v = elim (Outcome-cases (verdicts judge fs ss)) [
    | inl found ↦ found
    | inr (e, failed) ↦ absurd (ground arith)
  ]

  -- Where no verdict raises, every reported path goes.
  pub reported-gone :
      (fs : Files) {s : String} {line : L} {ss : List String} {lines : List L} (j : String)
      → Among s ss
      → judge fs s ≡ returned (some line)
      → verdicts judge fs ss ≡ returned lines
      → reaps o s j ≡ true
      → gone o judge fs ss j ≡ true
  unfolding gone verdicts
  reported-gone fs j here q v r = ground arith
  reported-gone fs j (there {x = x} {xs = xs} m) q v r =
      let (rest, v') = verdicts-tail fs x xs v in ground (arith, reported-gone fs j m q v' r)

  -- A judge that does not raise leads to a report.
  pub verdicts-returned :
      (fs : Files)
      → ((s : String) → (v : Option L) × (judge fs s ≡ returned v))
      → (ss : List String) → (lines : List L) × (verdicts judge fs ss ≡ returned lines)
  unfolding verdicts
  verdicts-returned fs total [] = ([], refl)
  verdicts-returned fs total (s ∷ ss) =
      let (v, q) = total s in
      let (lines, e) = verdicts-returned fs total ss in
      elim (Option-cases v) [
        | inl skipped ↦ (lines, ground arith)
        | inr (line, reported) ↦ (line ∷ lines, ground arith)
      ]

module _ (o : Os) where
  reaps-cases : (s j : String) → reaps o s j ≡ true → (j ≡ s) ⊎ (j ≡ manifest_path s)
  reaps-cases s j h = ground (arith, eq_iff s j, eq_iff (manifest_path s) j)

  reaps_self : (s : String) → o.removable s ≡ true → reaps o s s ≡ true
  reaps_self s h = ground (arith, eq_iff s s)

  reaps_manifest :
      (s : String) → o.removable (manifest_path s) ≡ true → reaps o s (manifest_path s) ≡ true
  reaps_manifest s h = ground (arith, eq_iff (manifest_path s) (manifest_path s))

module _ (o : Os) {L : Type 0} (judge : Files → String → Outcome Exc (Option L))
    (local : IsLocal judge) (fs : Files) (ss : List String) (apart : Apart ss) where
  -- A path that a real sweep changes is a reported one or its manifest.
  pub sweep-only_reported :
      (j : String)
      → lookup j (sweep o judge false ss fs).1 ≢ lookup j fs
      → (s : String) × (line : L) × Among s ss
        × (judge fs s ≡ returned (some line))
        × ((j ≡ s) ⊎ (j ≡ manifest_path s))
  sweep-only_reported j changed = elim (Bool-cases (gone o judge fs ss j)) [
    | inl g ↦
        let (s, line, m, q, r) = gone-Reported o judge fs ss j g in
        (s, line, m, q, reaps-cases o s j r)
    | inr kept ↦ absurd (changed (lookup-sweep o judge local ss fs j apart ∙ rw kept))
  ]

  -- A path that is neither a reported one nor the manifest of one is left as it is.
  pub sweep-keeps :
      (j : String)
      → ((s : String) (line : L)
          → Among s ss
          → judge fs s ≡ returned (some line)
          → (j ≢ s) × (j ≢ manifest_path s))
      → lookup j (sweep o judge false ss fs).1 ≡ lookup j fs
  sweep-keeps j spared = elim (Bool-cases (gone o judge fs ss j)) [
    | inl g ↦
        let (s, line, m, q, r) = gone-Reported o judge fs ss j g in
        elim (reaps-cases o s j r) [
          | inl same ↦ absurd ((spared s line m q).0 same)
          | inr same ↦ absurd ((spared s line m q).1 same)
        ]
    | inr kept ↦ lookup-sweep o judge local ss fs j apart ∙ rw kept
  ]

  -- What is reported is gone in the end, with its manifest, if the host lets it be removed.
  pub sweep-all_reported :
      (s : String) {line : L} {lines : List L}
      → Among s ss
      → judge fs s ≡ returned (some line)
      → verdicts judge fs ss ≡ returned lines
      → (o.removable s ≡ true → lookup s (sweep o judge false ss fs).1 ≡ none)
        × (o.removable (manifest_path s) ≡ true
            → lookup (manifest_path s) (sweep o judge false ss fs).1 ≡ none)
  sweep-all_reported s m q v = (
    λ r. goes s (reported-gone o judge fs s m q v (reaps_self o s r)),
    λ r.
        goes (manifest_path s)
          (reported-gone o judge fs (manifest_path s) m q v (reaps_manifest o s r)),
  )
    where
      goes :
          (j : String) → gone o judge fs ss j ≡ true → lookup j (sweep o judge false ss fs).1 ≡ none
      goes j g = lookup-sweep o judge local ss fs j apart ∙ rw g
