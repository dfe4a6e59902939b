-- ===== src/Burst/Rank.antt =====
-- percentile of scripts/swerver_guest_burst.py: which of the values it picks.
use nether.Prelude.{
  ℕ, zero, suc, ◌+◌, ◌-◌, ◌*◌, ◌/◌, ◌≤◌, ◌<◌, ◌≡◌, refl, List, [], ◌∷◌, leb, ltb, arith,
  if◌then◌else◌, Bool-cases, inl, inr, length, min, Among, here, there, ltb→lt,
}
use nether.Prelude.Outcome.{returned}
use nether.Burst.{insert, sorted, nth, percentile}

-- How many values are at most v, and how many are below it.
unfoldable pub at_most : ℕ → List ℕ → ℕ
at_most v [] = 0
at_most v (x ∷ xs) = (if leb x v then 1 else 0) + at_most v xs

unfoldable pub below : ℕ → List ℕ → ℕ
below v [] = 0
below v (x ∷ xs) = (if ltb x v then 1 else 0) + below v xs

at_most-insert : (v x : ℕ) (xs : List ℕ) → at_most v (insert x xs) ≡ at_most v (x ∷ xs)
unfolding at_most insert
at_most-insert v x [] = refl
at_most-insert v x (y ∷ xs) = ground (arith, at_most-insert v x xs)

below-insert : (v x : ℕ) (xs : List ℕ) → below v (insert x xs) ≡ below v (x ∷ xs)
unfolding below insert
below-insert v x [] = refl
below-insert v x (y ∷ xs) = ground (arith, below-insert v x xs)

at_most-sorted : (v : ℕ) (xs : List ℕ) → at_most v (sorted xs) ≡ at_most v xs
unfolding at_most sorted
at_most-sorted v [] = refl
at_most-sorted v (x ∷ xs) = omega (arith, at_most-insert v x (sorted xs), at_most-sorted v xs)

below-sorted : (v : ℕ) (xs : List ℕ) → below v (sorted xs) ≡ below v xs
unfolding below sorted
below-sorted v [] = refl
below-sorted v (x ∷ xs) = omega (arith, below-insert v x (sorted xs), below-sorted v xs)

length-insert : (x : ℕ) (xs : List ℕ) → length (insert x xs) ≡ suc (length xs)
unfolding insert
length-insert x [] = refl
length-insert x (y ∷ xs) = ground (arith, length-insert x xs)

length-sorted : (xs : List ℕ) → length (sorted xs) ≡ length xs
unfolding sorted
length-sorted [] = refl
length-sorted (x ∷ xs) = omega (arith, length-insert x (sorted xs), length-sorted xs)

-- No element is below the one before it.
abbrev FirstAtLeast : ℕ → List ℕ → Type 0
FirstAtLeast lo [] = Unit
FirstAtLeast lo (x ∷ xs) = lo ≤ x

abbrev IsSorted : List ℕ → Type 0
IsSorted [] = Unit
IsSorted (x ∷ xs) = FirstAtLeast x xs × IsSorted xs

FirstAtLeast-insert :
    (lo v : ℕ) (xs : List ℕ) → lo ≤ v → FirstAtLeast lo xs → FirstAtLeast lo (insert v xs)
unfolding insert
FirstAtLeast-insert lo v [] h f = h
FirstAtLeast-insert lo v (x ∷ xs) h f = elim (Bool-cases (ltb x v)) [
  | inl e ↦ rw e f
  | inr e ↦ rw e h
]

insert-IsSorted : (v : ℕ) (xs : List ℕ) → IsSorted xs → IsSorted (insert v xs)
unfolding insert
insert-IsSorted v [] s = (tt, tt)
insert-IsSorted v (x ∷ xs) s = elim (Bool-cases (ltb x v)) [
  | inl e ↦
      let lt : x < v = ltb→lt x v e in
      rw e (FirstAtLeast-insert x v xs (omega (arith, lt)) s.0, insert-IsSorted v xs s.1)
  | inr e ↦ rw e (ground (arith, e), s)
]

sorted-IsSorted : (xs : List ℕ) → IsSorted (sorted xs)
unfolding sorted
sorted-IsSorted [] = tt
sorted-IsSorted (x ∷ xs) = insert-IsSorted x (sorted xs) (sorted-IsSorted xs)

weaker : (lo x : ℕ) (xs : List ℕ) → lo ≤ x → FirstAtLeast x xs → FirstAtLeast lo xs
weaker lo x [] h f = tt
weaker lo x (y ∷ xs) h f = omega (arith, h, f)

below-first : (lo : ℕ) (xs : List ℕ) → FirstAtLeast lo xs → IsSorted xs → below lo xs ≡ 0
unfolding below
below-first lo [] f s = refl
below-first lo (x ∷ xs) f s = ground (arith, f, below-first lo xs (weaker lo x xs f s.0) s.1)

first-least : (lo v : ℕ) (xs : List ℕ) → FirstAtLeast lo xs → IsSorted xs → Among v xs → lo ≤ v
first-least lo v [] f s m = elim m [ ]
first-least lo v (x ∷ xs) f s here = f
first-least lo v (x ∷ xs) f s (there m) = first-least lo v xs (weaker lo x xs f s.0) s.1 m

below-cons : (v x : ℕ) (xs : List ℕ) → below v (x ∷ xs) ≤ suc (below v xs)
unfolding below
below-cons v x xs = ground arith

below_self : (x : ℕ) (xs : List ℕ) → below x (x ∷ xs) ≡ below x xs
unfolding below
below_self x xs = ground arith

at_most-cons : (v x : ℕ) (xs : List ℕ) → x ≤ v → at_most v (x ∷ xs) ≡ suc (at_most v xs)
unfolding at_most
at_most-cons v x xs h = ground arith

-- The value at an index of a sorted list that is long enough: it is in the list, no more than the
-- index many are below it, and more than that are at most it.
nth-rank :
    (xs : List ℕ) (i : ℕ)
    → IsSorted xs
    → i < length xs
    → (v : ℕ) × (nth xs i ≡ returned v) × (below v xs ≤ i) × (i < at_most v xs) × Among v xs
unfolding nth
nth-rank [] i s h = absurd (omega (arith, h))
nth-rank (x ∷ xs) zero s h = (
  x,
  refl,
  omega (arith, below_self x xs, below-first x xs s.0 s.1),
  omega (arith, at_most-cons x x xs (omega arith)),
  here,
)
nth-rank (x ∷ xs) (suc i) s h =
    let (v, e, lo, hi, m) = nth-rank xs i s.1 (omega (arith, h)) in
    let le : x ≤ v = first-least x v xs s.0 s.1 m in
    (v, e, omega (arith, lo, below-cons v x xs), omega (arith, hi, at_most-cons v x xs le), there m)

Among-tail :
    (v x : ℕ) (xs ys : List ℕ) → (Among v xs → Among v ys) → Among v (x ∷ xs) → Among v (x ∷ ys)
Among-tail v x xs ys f here = here
Among-tail v x xs ys f (there m) = there (f m)

Among-swap : (v x y : ℕ) (xs : List ℕ) → Among v (y ∷ x ∷ xs) → Among v (x ∷ y ∷ xs)
Among-swap v x y xs here = there here
Among-swap v x y xs (there here) = here
Among-swap v x y xs (there (there m)) = there (there m)

Among-insert : (v x : ℕ) (xs : List ℕ) → Among v (insert x xs) → Among v (x ∷ xs)
unfolding insert
Among-insert v x [] m = m
Among-insert v x (y ∷ xs) m = elim (Bool-cases (ltb y x)) [
  | inl e ↦
      Among-swap v x y xs (Among-tail v y (insert x xs) (x ∷ xs) (Among-insert v x xs) (rw e at m))
  | inr e ↦ rw e at m
]

Among-sorted : (v : ℕ) (xs : List ℕ) → Among v (sorted xs) → Among v xs
unfolding sorted
Among-sorted v [] m = m
Among-sorted v (x ∷ xs) m =
    Among-tail v x (sorted xs) xs (Among-sorted v xs) (Among-insert v x (sorted xs) m)

mul_mono : (b x y : ℕ) → x ≤ y → b * x ≤ b * y
mul_mono b x y h = grind arith

-- The index of percentile, in a list of n values.
abbrev pub index_of : ℕ → ℕ → ℕ
index_of n fraction = (n - 1) * fraction / 100

index_of-≤ : (n fraction : ℕ) → fraction ≤ 100 → index_of n fraction ≤ n - 1
index_of-≤ n fraction h = omega (arith, mul_mono (n - 1) fraction 100 h)

-- Of any values but none, percentile with a fraction of at most 1 returns one of them, of which no more
-- than (len - 1) * fraction values are below it, and more than that are at most it.
pub percentile-rank :
    (x : ℕ) (xs : List ℕ) (fraction : ℕ)
    → fraction ≤ 100
    → (v : ℕ) × (percentile (x ∷ xs) fraction ≡ returned v)
      × Among v (x ∷ xs)
      × (below v (x ∷ xs) ≤ index_of (length (x ∷ xs)) fraction)
      × (index_of (length (x ∷ xs)) fraction < at_most v (x ∷ xs))
unfolding percentile
percentile-rank x xs fraction h =
    let n = length (x ∷ xs) in
    let i = min (n - 1) (index_of n fraction) in
    let le : index_of n fraction ≤ n - 1 = index_of-≤ n fraction h in
    let (v, f, lo, hi, m) =
      nth-rank (sorted (x ∷ xs)) i (sorted-IsSorted (x ∷ xs))
        (omega (arith, le, length-sorted (x ∷ xs))) in
    (
      v,
      f,
      Among-sorted v (x ∷ xs) m,
      omega (arith, lo, le, below-sorted v (x ∷ xs)),
      omega (arith, hi, le, at_most-sorted v (x ∷ xs)),
    )
