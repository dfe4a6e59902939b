-- ===== src/Fuzz/Fields.antt =====
-- The header-field mutants of scripts/fuzz_restore.py: what they are, and that every one is made.
use nether.Prelude.{
  ℕ, zero, suc, ◌+◌, ◌-◌, ◌*◌, ◌/◌, ◌%◌, ◌^◌, ◌≤◌, ◌<◌, String, ◌<>◌, ◌≡◌, refl, ap, ◌∙◌, ◌⊎◌, inl,
  inr, List, [], ◌∷◌, ◌++◌, arith, ltb, set, Bool-cases, lt→ltb, if◌then◌else◌, length, take, drop,
  Among, here, there, length-take,
}
use nether.Prelude.Outcome.{returned}
use nether.Prelude.Action.{Action, pure, ◌>>=◌}
use nether.Os.{Bytes}
use nether.Errors.{Exc}
use nether.Fuzz.Layout.{HeaderField, IsExtreme, Among-fields, Among-extremes}
use nether.Fuzz.{
  Random, Mutant, to_bytes, fields, extremes, with_field, sorted_set, boundaries, field_mutants_at,
  field_mutants, truncations, randrange, flip1, flip_run, flip_n, random_bytes, tail_garbage,
  repeated, mutants,
}

-- int.from_bytes(b, "little")
unfoldable pub from_bytes : Bytes → ℕ
from_bytes [] = 0
from_bytes (b ∷ bs) = b + 256 * from_bytes bs

length-to_bytes : (w v : ℕ) → length (to_bytes w v) ≡ w
unfolding to_bytes
length-to_bytes zero v = refl
length-to_bytes (suc w) v = omega (arith, length-to_bytes w (v / 256))

from_bytes-to_bytes : (w v : ℕ) → v < 256 ^ w → from_bytes (to_bytes w v) ≡ v
unfolding from_bytes to_bytes
from_bytes-to_bytes zero v small = omega arith
from_bytes-to_bytes (suc w) v small = omega (arith, from_bytes-to_bytes w (v / 256) (omega arith))

module _ {A : Type 0} where
  take-part : (n : ℕ) (a b : List A) → length a ≡ n → take n (a ++ b) ≡ a
  take-part zero [] b h = refl
  take-part zero (x ∷ a) b h = absurd (omega arith)
  take-part (suc n) [] b h = absurd (omega arith)
  take-part (suc n) (x ∷ a) b h = ap (λ t. x ∷ t) (take-part n a b (omega arith))

  drop-part : (n : ℕ) (a b : List A) → length a ≡ n → drop n (a ++ b) ≡ b
  drop-part zero [] b h = refl
  drop-part zero (x ∷ a) b h = absurd (omega arith)
  drop-part (suc n) [] b h = absurd (omega arith)
  drop-part (suc n) (x ∷ a) b h = drop-part n a b (omega arith)

  Among-left : {x : A} {a : List A} (b : List A) → Among x a → Among x (a ++ b)
  Among-left b here = here
  Among-left b (there m) = there (Among-left b m)

  Among-right : {x : A} (a : List A) {b : List A} → Among x b → Among x (a ++ b)
  Among-right [] m = m
  Among-right (y ∷ a) m = there (Among-right a m)

-- The content is the snapshot's but for the field, which has the value.
pub record IsField (good : Bytes) (off w v : ℕ) (b : Bytes) : Type 0 where
  pub front : take off b ≡ take off good
  pub value : from_bytes (take w (drop off b)) ≡ v % 2 ^ (8 * w)
  pub back : drop w (drop off b) ≡ drop (off + w) good

module _ (show : ℕ → String) (good : Bytes) where
  with_field-IsField :
      (off w v : ℕ)
      → (w ≡ 4) ⊎ (w ≡ 8)
      → off ≤ length good
      → IsField good off w v (with_field good off w v)
  unfolding with_field
  with_field-IsField off w v width long =
      let n : length (take off good) ≡ off = omega (arith, length-take off good) in
      let bytes = to_bytes w (v % 2 ^ (8 * w)) in
      let d : drop off (take off good ++ (bytes ++ drop (off + w) good))
          ≡ bytes ++ drop (off + w) good =
        drop-part off (take off good) _ n in
      record {
        front = take-part off (take off good) _ n;
        value =
            ap (λ t. from_bytes (take w t)) d
            ∙ ap from_bytes (take-part w bytes _ (length-to_bytes w (v % 2 ^ (8 * w))))
            ∙ from_bytes-to_bytes w (v % 2 ^ (8 * w)) (small w width);
        back = ap (drop w) d ∙ drop-part w bytes _ (length-to_bytes w (v % 2 ^ (8 * w)));
      }
    where
      small : (k : ℕ) → (k ≡ 4) ⊎ (k ≡ 8) → v % 2 ^ (8 * k) < 256 ^ k
      small k (inl e) = rw e (omega arith)
      small k (inr e) = rw e (omega arith)

  field_mutants_at-Among :
      (off w v : ℕ) (vs : List ℕ)
      → Among v vs
      → (name : String) × Among
          (name, with_field good off w v)
          (field_mutants_at show good off w vs)
  unfolding field_mutants_at
  field_mutants_at-Among off w v [] m = elim m [ ]
  field_mutants_at-Among off w v (u ∷ vs) here = (_, here)
  field_mutants_at-Among off w v (u ∷ vs) (there m) =
      let (name, k) = field_mutants_at-Among off w v vs m in (name, there k)

  field_mutants-Among :
      (off w v : ℕ) (fs : List (ℕ × ℕ))
      → Among (off, w) fs
      → Among v extremes
      → (name : String) × Among (name, with_field good off w v) (field_mutants show good fs)
  unfolding field_mutants
  field_mutants-Among off w v [] m k = elim m [ ]
  field_mutants-Among off w v (f ∷ fs) here k =
      let (name, m) = field_mutants_at-Among off w v extremes k in
      (name, Among-left (field_mutants show good fs) m)
  field_mutants-Among off w v ((o, u) ∷ fs) (there m) k =
      let (name, n) = field_mutants-Among off w v fs m k in
      (name, Among-right (field_mutants_at show good o u extremes) n)

-- The width of a field is 4 or 8, and it begins in the header.
abbrev FitsHeader : ℕ × ℕ → Type 0
FitsHeader (off, w) = ((w ≡ 4) ⊎ (w ≡ 8)) × (off ≤ 96)

abbrev AllFit : List (ℕ × ℕ) → Type 0
AllFit [] = Unit
AllFit (f ∷ fs) = FitsHeader f × AllFit fs

AllFit-fields : AllFit fields
AllFit-fields =
    let at4 : (off : ℕ) → off ≤ 96 → FitsHeader (off, 4) = λ off h. (inl refl, h) in
    let at8 : (off : ℕ) → off ≤ 96 → FitsHeader (off, 8) = λ off h. (inr refl, h) in
    (
      at4 0 (omega arith),
      (
        at4 4 (omega arith),
        (
          at4 8 (omega arith),
          (
            at4 12 (omega arith),
            (
              at8 24 (omega arith),
              (
                at8 32 (omega arith),
                (
                  at8 40 (omega arith),
                  (
                    at8 48 (omega arith),
                    (
                      at4 56 (omega arith),
                      (
                        at4 60 (omega arith),
                        (
                          at4 64 (omega arith),
                          (
                            at4 68 (omega arith),
                            (
                              at4 72 (omega arith),
                              (
                                at4 76 (omega arith),
                                (at4 80 (omega arith), (at8 88 (omega arith), tt)),
                              ),
                            ),
                          ),
                        ),
                      ),
                    ),
                  ),
                ),
              ),
            ),
          ),
        ),
      ),
    )

AllFit-Among : {f : ℕ × ℕ} (fs : List (ℕ × ℕ)) → AllFit fs → Among f fs → FitsHeader f
AllFit-Among [] a m = elim m [ ]
AllFit-Among (f ∷ fs) (h, a) here = h
AllFit-Among (f ∷ fs) (h, a) (there m) = AllFit-Among fs a m

module _ (show : ℕ → String) (R : Random) where
  open R use {State}

  -- The procedure returns, whatever random numbers come.
  record Returns {A : Type 0} (m : Action State Exc A) : Type 0 where
    at : (s : State) → (a : A) × (t : State) × (m s ≡ (returned a, t))

  Returns-pure : {A : Type 0} (a : A) → Returns (pure a)
  Returns-pure a = record { at = λ s. (a, s, refl) }

  Returns-bind :
      {A B : Type 0} (m : Action State Exc A) (f : A → Action State Exc B)
      → Returns m
      → ((a : A) → Returns (f a))
      → Returns (m >>= f)
  Returns-bind m f r q = record {
    at = λ s. let (a, t, e) = r.at s in let (b, u, e') = (q a).at t in (b, u, rw (e, e') refl);
  }

  Returns-randrange : (lo hi : ℕ) → lo < hi → Returns (randrange show R lo hi)
  unfolding randrange
  Returns-randrange lo hi h = record {
    at = λ s. ((R.below lo hi s).0, (R.below lo hi s).1, rw (lt→ltb lo hi h) refl);
  }

  Returns-flip_run : (left at n : ℕ) (b : Bytes) → Returns (flip_run show R left at n b)
  unfolding flip_run
  Returns-flip_run zero at n b = Returns-pure b
  Returns-flip_run (suc left) at n b = elim (Bool-cases (ltb at n)) [
    | inl inside ↦ rw inside (
        Returns-bind (randrange show R 0 256) _ (Returns-randrange 0 256 (omega arith))
          λ x. Returns-flip_run left (at + 1) n (set b at x))
    | inr outside ↦ rw outside (Returns-flip_run left (at + 1) n b)
  ]

  Returns-random_bytes : (n : ℕ) → Returns (random_bytes show R n)
  unfolding random_bytes
  Returns-random_bytes zero = Returns-pure []
  Returns-random_bytes (suc n) =
      Returns-bind (randrange show R 0 256) _ (Returns-randrange 0 256 (omega arith)) λ x.
        Returns-bind (random_bytes show R n) _ (Returns-random_bytes n) λ xs. Returns-pure (x ∷ xs)

  Returns-repeated :
      (n : ℕ) (m : Action State Exc Mutant) → Returns m → Returns (repeated show R n m)
  unfolding repeated
  Returns-repeated zero m r = Returns-pure []
  Returns-repeated (suc n) m r =
      Returns-bind m _ r λ x.
        Returns-bind (repeated show R n m) _ (Returns-repeated n m r) λ xs. Returns-pure (x ∷ xs)

  Returns-flip1 : (good : Bytes) → 0 < length good → Returns (flip1 show R good)
  unfolding flip1
  Returns-flip1 good h =
      Returns-bind (randrange show R 0 (length good)) _ (Returns-randrange 0 (length good) h) λ at.
        Returns-bind (randrange show R 0 256) _ (Returns-randrange 0 256 (omega arith))
          λ b. Returns-pure ("flip1@" <> show at, set good at b)

  Returns-flip_n : (good : Bytes) → Returns (flip_n show R good)
  unfolding flip_n
  Returns-flip_n good =
      Returns-bind (randrange show R 0 (if ltb 32 (length good) then length good - 32 else 1)) _
        (Returns-randrange 0 _ (ground arith))
        λ at. Returns-bind (randrange show R 1 32) _ (Returns-randrange 1 32 (omega arith)) λ ln.
          Returns-bind (flip_run show R ln at (length good) good) _
            (Returns-flip_run ln at (length good) good)
            λ b. Returns-pure ((("flipN@" <> show at) <> "+") <> show ln, b)

  Returns-tail_garbage : (good : Bytes) → Returns (tail_garbage show R good)
  unfolding tail_garbage
  Returns-tail_garbage good =
      Returns-bind (randrange show R 1 4096) _ (Returns-randrange 1 4096 (omega arith)) λ n.
        Returns-bind (random_bytes show R n) _ (Returns-random_bytes n)
          λ g. Returns-pure ("tail+garbage", good ++ g)

  -- mutants of a snapshot of 96 bytes or more returns, whatever random numbers come, and each field that
  -- HeaderField lists of the header is set to each value of IsExtreme, cut to the field's width, in one
  -- of the mutants, which is the snapshot elsewhere.
  pub mutants-IsField :
      (good : Bytes) (s : State)
      → 96 ≤ length good
      → (ms : List Mutant) × ((mutants show R good s).0 ≡ returned ms)
        × ((off w v : ℕ)
            → HeaderField off w
            → IsExtreme v
            → (name : String) × (b : Bytes) × Among (name, b) ms × IsField good off w v b)
  unfolding mutants
  mutants-IsField good s long =
      let (a, s1, e1) =
        (Returns-repeated 120 (flip1 show R good) (Returns-flip1 good (omega arith))).at s in
      let (r, s2, e2) = (Returns-repeated 80 (flip_n show R good) (Returns-flip_n good)).at s1 in
      let (t, s3, e3) =
        (Returns-repeated 10 (tail_garbage show R good) (Returns-tail_garbage good)).at s2 in
      (
        a
            ++ (r
                ++ (field_mutants show good fields
                    ++ (truncations show good (sorted_set (boundaries (length good))) ++ t))),
        rw (e1, e2, e3) refl,
        λ off w v field extreme.
            let m = Among-fields field in
            let (width, first) = AllFit-Among fields AllFit-fields m in
            let (name, n) =
              field_mutants-Among show good off w v fields m (Among-extremes extreme) in
            (
              name,
              with_field good off w v,
              Among-right a (Among-right r (Among-left _ n)),
              with_field-IsField show good off w v width (omega arith),
            ),
      )
