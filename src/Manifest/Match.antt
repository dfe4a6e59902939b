-- ===== src/Manifest/Match.antt =====
-- What key_matches of scripts/bake.py says of a manifest that write_manifest wrote.
use text.Mathlib.TextPositions.{eq_refl}
use nether.Prelude.{ℕ, String, ◌≡◌, refl, ◌↔◌, ap, true, Option, none, some, arith, eq_iff}
use nether.Prelude.Outcome.{returned}
use nether.Prelude.Dict.{lookup-insert}
use nether.Os.{Files, Os, Json, null, str}
use nether.Manifest.{
  Key, text_or_null, key_json, manifest_json, write_manifest, read_manifest, equals_text,
  equals_key, key_matches,
}

equals_text_iff : (a b : Option String) → (equals_text (text_or_null a) b ≡ true) ↔ (a ≡ b)
equals_text_iff none none = (λ _. refl, λ _. refl)
equals_text_iff none (some t) = ground arith
equals_text_iff (some s) none = ground arith
equals_text_iff (some s) (some t) = ground (arith, eq_iff s t)

pub equals_key_iff : (k k' : Key) → (equals_key (key_json k) k' ≡ true) ↔ (k ≡ k')
unfolding equals_key
equals_key_iff k k' = ground (
  arith,
  eq_iff k.nether_build k'.nether_build,
  eq_iff k.kernel_sha k'.kernel_sha,
  equals_text_iff k.initramfs_sha k'.initramfs_sha,
  eq_iff k.recipe_sha k'.recipe_sha,
)

module _ (o : Os) (now : ℕ) (snap recipe created : String) (k : Key) (fs : Files)
    (parses : o.loads (o.dumps (manifest_json o snap k recipe created))
      ≡ some (manifest_json o snap k recipe created)) where
  -- What is read after write_manifest is the manifest that was written, if `json` parses it back.
  pub read-write_manifest :
      read_manifest o (write_manifest o now snap k recipe created fs) snap
      ≡ manifest_json o snap k recipe created
  unfolding read_manifest write_manifest
  read-write_manifest = simp (lookup-insert, eq_refl, parses)

  -- If `json` parses back what it printed, key_matches accepts the manifest that was just written
  -- exactly for the key that it was written with.
  pub key_matches-write_manifest :
      (k' : Key)
      → (key_matches (read_manifest o (write_manifest o now snap k recipe created fs) snap) k'
          ≡ returned true)
        ↔ (k ≡ k')
  unfolding key_matches
  key_matches-write_manifest k' =
      rw read-write_manifest
        (λ h. (equals_key_iff k k').0 (cc), λ p. ap returned ((equals_key_iff k k').1 p))

-- A JSON value equals None exactly if it is null, and a text exactly if it is that text.
pub equals_none_iff : (j : Json) → (equals_text j none ≡ true) ↔ (j ≡ null)
equals_none_iff null = ground arith
equals_none_iff _ = ground arith

pub equals_some_iff : (j : Json) (s : String) → (equals_text j (some s) ≡ true) ↔ (j ≡ str s)
equals_some_iff (str t) s = ground (arith, eq_iff t s)
equals_some_iff _ s = ground arith
