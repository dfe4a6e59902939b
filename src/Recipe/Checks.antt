-- ===== src/Recipe/Checks.antt =====
-- validate_recipe of scripts/bake.py: what a recipe that passes is like, and what its checks on
-- [[files]] do not see.
use mathlib.Core.Option.{some-injective}
use nether.Prelude.{
  sym, ◌∙◌, ◌≤◌, String, str_eq, ◌≡◌, refl, ◌≢◌, ◌↔◌, ◌⊎◌, inl, inr, Bool, true, false, not, ◌&&◌,
  ◌||◌, Option, none, some, List, [], ◌∷◌, ap, arith, eq_iff, if◌then◌else◌, Bool-cases,
  Option-cases, length,
}
use nether.Prelude.Outcome.{Outcome, returned, raised}
use nether.Prelude.Dict.{lookup}
use nether.Os.{File, Files, exists}
use nether.Errors.{Exc}
use nether.Manifest.{truthy_text}
use nether.Recipe.{Recipe, FileEntry, or_text, max_xfer, too_large, check_files, validate_recipe}

-- A path that is given, and at which a file stands.
abbrev pub IsFile : Files → Option String → Type 0
IsFile fs p = (s : String) × (f : File) × (p ≡ some s) × (s ≢ "") × (lookup s fs ≡ some f)

-- Not given: a missing key or the empty text.
abbrev pub IsUnset : Option String → Type 0
IsUnset p = (p ≡ none) ⊎ (p ≡ some "")

-- A file that is pushed: none is longer than `__put__` takes.
abbrev pub Fits : Files → FileEntry → Type 0
Fits fs e =
    (s : String) (f : File)
    → e.host ≡ some s
    → s ≢ ""
    → lookup s fs ≡ some f
    → length f.content ≤ max_xfer

abbrev pub AllFit : Files → List FileEntry → Type 0
AllFit fs [] = Unit
AllFit fs (e ∷ es) = Fits fs e × AllFit fs es

-- What the comments of the recipe format ask for.
pub record IsValid (fs : Files) (r : Recipe) : Type 0 where
  pub kernel : IsFile fs r.image.kernel
  pub initramfs : IsUnset r.image.initramfs ⊎ IsFile fs r.image.initramfs
  pub out : truthy_text r.snapshot.out ≡ true
  pub no_base : IsUnset r.snapshot.base
  pub compress :
      (or_text r.snapshot.compress "none" ≡ "none")
      ⊎ (or_text r.snapshot.compress "none" ≡ "deflate")
  pub files : AllFit fs r.files

truthy_text-cases :
    (p : Option String)
    → (IsUnset p × (truthy_text p ≡ false))
      ⊎ ((s : String) × (p ≡ some s) × (s ≢ "") × (truthy_text p ≡ true))
truthy_text-cases none = inl (inl refl, refl)
truthy_text-cases (some s) = elim (Bool-cases (str_eq s "")) [
  | inl e ↦ inl (inr (ap some ((eq_iff s "").0 e)), rw e)
  | inr n ↦ inr (s, refl, λ e. ground (arith, (eq_iff s "").1 e), rw n)
]

Fits-iff :
    (fs : Files) (e : FileEntry)
    → ((truthy_text e.host && too_large fs (or_text e.host "")) ≡ false) ↔ Fits fs e
unfolding too_large
Fits-iff fs e = elim (truthy_text-cases e.host) [
  | inl (inl unset, t) ↦ (λ _ s f given. cc, λ _. rw t)
  | inl (inr empty, t) ↦
      (λ _ s f given ne. absurd (ne (some-injective s "" (sym given ∙ empty))), λ _. rw t)
  | inr (s, given, ne, t) ↦ elim (Option-cases (lookup s fs)) [
    | inl missing ↦ (λ _ s' f given' ne' found. absurd (ground arith), λ _. ground arith)
    | inr (f, found) ↦ (
      λ small s' f' given' ne' found'. ground arith,
      λ fits. ground (arith, fits s f given ne found),
    )
  ]
]

check_files-AllFit :
    (fs : Files) (es : List FileEntry) → (check_files fs es ≡ returned tt) ↔ AllFit fs es
unfolding check_files
check_files-AllFit fs [] = (λ _. tt, λ _. refl)
check_files-AllFit fs (e ∷ es) = ground (arith, Fits-iff fs e, check_files-AllFit fs es)

IsFile-iff :
    (fs : Files) (p : Option String)
    → ((truthy_text p ≡ true) × (exists fs (or_text p "") ≡ true)) ↔ IsFile fs p
IsFile-iff fs none = (λ h. cc, λ (s, f, e, ne, found). cc)
IsFile-iff fs (some s) = (
  λ (t, x). elim (Option-cases (lookup s fs)) [
    | inl missing ↦ absurd (ground arith)
    | inr (f, found) ↦ (s, f, refl, λ e. ground (arith, (eq_iff s "").1 e), found)
  ],
  λ (s', f, e, ne, found). (ground (arith, (eq_iff s "").0), ground arith),
)

IsUnset-iff : (p : Option String) → (truthy_text p ≡ false) ↔ IsUnset p
IsUnset-iff none = (λ _. inl refl, λ _. refl)
IsUnset-iff (some s) = ground (arith, eq_iff s "")

-- A check that exits unless it passes.
guarded :
    (failed : Bool) (e : Exc) (m : Outcome Exc (Unit {0}))
    → ((if failed then raised e else m) ≡ returned tt) ↔ ((failed ≡ false) × (m ≡ returned tt))
guarded true e m = (λ h. cc, λ h. cc)
guarded false e m = (λ h. (refl, h), λ h. h.1)

initramfs_iff :
    (fs : Files) (p : Option String)
    → ((truthy_text p && not (exists fs (or_text p ""))) ≡ false) ↔ (IsUnset p ⊎ IsFile fs p)
initramfs_iff fs p = elim (Bool-cases (truthy_text p)) [
  | inl t ↦ (
    λ h. inr ((IsFile-iff fs p).0 (t, ground arith)),
    λ v. elim v [
      | inl u ↦ rw ((IsUnset-iff p).1 u) refl
      | inr f ↦ rw (((IsFile-iff fs p).1 f).1, t) refl
    ],
  )
  | inr u ↦ (λ h. inl ((IsUnset-iff p).0 u), λ v. rw u refl)
]

compress_iff :
    (c : String)
    → ((str_eq c "zstd" ≡ false) × (not (str_eq c "none" || str_eq c "deflate") ≡ false))
      ↔ ((c ≡ "none") ⊎ (c ≡ "deflate"))
compress_iff c = (
  λ h. ground (arith, eq_iff c "none", eq_iff c "deflate"),
  λ v. elim v [ inl e ↦ rw e (refl, refl) | inr e ↦ rw e (refl, refl) ],
)

not_iff : (b : Bool) → (not b ≡ false) ↔ (b ≡ true)
not_iff b = ground arith

module _ (fs : Files) (r : Recipe) where
  -- validate_recipe returns exactly if the kernel is given and there, the initramfs is not given or
  -- is there, an output is named, no base snapshot is set, the compression is "none" or "deflate",
  -- and no file entry's path, as the recipe spells it, holds a file beyond the transfer limit.
  pub validate_recipe-IsValid : (validate_recipe fs r ≡ returned tt) ↔ IsValid fs r
  unfolding validate_recipe
  validate_recipe-IsValid = (
    λ h.
        let (k, h1) = (guarded _ _ _).0 h in
        let (x, h2) = (guarded _ _ _).0 h1 in
        let (i, h3) = (guarded _ _ _).0 h2 in
        let (t, h4) = (guarded _ _ _).0 h3 in
        let (b, h5) = (guarded _ _ _).0 h4 in
        let (z, h6) = (guarded _ _ _).0 h5 in
        let (c, h7) = (guarded _ _ _).0 h6 in
        record {
          kernel = (IsFile-iff fs r.image.kernel).0 ((not_iff _).0 k, (not_iff _).0 x);
          initramfs = (initramfs_iff fs r.image.initramfs).0 i;
          out = (not_iff _).0 t;
          no_base = (IsUnset-iff r.snapshot.base).0 b;
          compress = (compress_iff (or_text r.snapshot.compress "none")).0 (z, c);
          files = (check_files-AllFit fs r.files).0 h7;
        },
    λ v.
        let (k, x) = (IsFile-iff fs r.image.kernel).1 v.kernel in
        let (z, c) = (compress_iff (or_text r.snapshot.compress "none")).1 v.compress in
        (guarded _ _ _).1 (
          (not_iff _).1 k,
          (guarded _ _ _).1 (
            (not_iff _).1 x,
            (guarded _ _ _).1 (
              (initramfs_iff fs r.image.initramfs).1 v.initramfs,
              (guarded _ _ _).1 (
                (not_iff _).1 v.out,
                (guarded _ _ _).1 (
                  (IsUnset-iff r.snapshot.base).1 v.no_base,
                  (guarded _ _ _).1
                      (z, (guarded _ _ _).1 (c, (check_files-AllFit fs r.files).1 v.files)),
                ),
              ),
            ),
          ),
        ),
  )
