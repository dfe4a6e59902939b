-- ===== src/Plane/Pacing/Verdict.antt =====
-- What the verdict of scripts/data_plane_pacing.py stands for.
use nether.Prelude.{
  ℕ, ◌+◌, ◌*◌, ◌≤◌, ◌<◌, ◌≡◌, refl, ◌↔◌, Bool, true, false, Option, none, some, String, List, ◌==◌,
  ltb, leb, ltb→lt, lt→ltb, leb→le, le→leb, ◌&&◌, arith, if◌then◌else◌, Bool-cases, inl, inr,
  ==_iff,
}
use nether.Prelude.Int.{ℤ, pos, negsuc}
use nether.Prelude.Outcome.{Outcome, returned}
use nether.Lab.{Site, Lab, Script, Trace}
use nether.Lab.Reads.{Stop}
use nether.Serve.{Place}
use nether.Plane.Pacing.{
  Run, cap_kbps, body_size, speed, is_rate, near_cap, throttled, responsive, passes, run, compared,
  pacing_main,
}

-- The two runs of a paced plane. Both transfers have the same bytes, and at least the body's; each run
-- advertises its cap; the capped transfer takes between 2/3 and 4/3 of a microsecond for a byte, and
-- more than three times as long as the other, which takes some time; and of the small
-- requests that were timed beside it, if any were, none takes three seconds.
pub record IsPaced (unc lim : Run) : Type 0 where
  pub lossless : unc.big_bytes ≡ lim.big_bytes
  pub whole : body_size ≤ unc.big_bytes
  pub capped : lim.adv ≡ some (pos cap_kbps)
  pub uncapped : unc.adv ≡ some (pos 0)
  pub slow : 2 * lim.big_bytes ≤ 3 * lim.big_us
  pub not_slower : 3 * lim.big_us ≤ 4 * lim.big_bytes
  pub some_time : 0 < unc.big_us
  pub throttles : 3 * unc.big_us < lim.big_us
  pub answers : (us : ℕ) × (lim.small_max ≡ some us) × (us < 3_000_000)

is_rate_iff : (n : ℕ) (o : Option ℤ) → (is_rate n o ≡ true) ↔ (o ≡ some (pos n))
unfolding is_rate
is_rate_iff n (some (pos m)) =
    (λ h. rw ((==_iff m n).0 h) refl, λ h. (==_iff m n).1 (ground (arith, h)))
is_rate_iff n (some (negsuc m)) = (λ h. cc, λ h. absurd (ground (arith, h)))
is_rate_iff n none = (λ h. cc, λ h. cc)

responsive_iff :
    (o : Option ℕ) → (responsive o ≡ true) ↔ ((us : ℕ) × (o ≡ some us) × (us < 3_000_000))
unfolding responsive
responsive_iff none = (λ h. cc, λ (us, e, _). cc)
responsive_iff (some us) =
    (λ h. (us, refl, ground (arith, h)), λ (v, e, h). let f : us ≡ v = cc in ground (arith, f, h))

mul_mono : (b x y : ℕ) → x ≤ y → b * x ≤ b * y
mul_mono b x y h = grind arith

-- Three times the time, for the same bytes.
times_iff : (b t u : ℕ) → 0 < b → (3 * (b * u) < b * t) ↔ (3 * u < t)
times_iff b t u h =
    let d : b * (3 * u) ≡ 3 * (b * u) = grind arith in
    let e : b * (3 * u + 1) ≡ 3 * (b * u) + b = grind arith in
    (
      λ lt. elim (Bool-cases (ltb (3 * u) t)) [
        | inl p ↦ ltb→lt (3 * u) t p
        | inr p ↦
            let q : t ≤ 3 * u = ground (arith, p) in
            absurd (omega (arith, d, mul_mono b t (3 * u) q, lt))
      ],
      λ lt. omega (arith, e, h, mul_mono b (3 * u + 1) t (omega (arith, lt))),
    )

nothing : (t n : ℕ) → 3 * n < 0 * t → ⊥
nothing t n h = let e : 0 * t ≡ 0 = grind arith in omega (arith, e, h)

-- The two checks on the speeds.
near_cap_iff :
    (r : Run)
    → 0 < r.big_bytes
    → (near_cap (speed r) ≡ true)
      ↔ ((3 * r.big_us ≤ 4 * r.big_bytes) × (2 * r.big_bytes ≤ 3 * r.big_us))
unfolding near_cap speed
near_cap_iff r h = elim (Bool-cases (r.big_us == 0)) [
  | inl e ↦
      let z : r.big_us ≡ 0 = (==_iff r.big_us 0).0 e in
      rw e (λ g. absurd (ground (arith, g)), λ (p, q). absurd (omega (arith, p, q, z, h)))
  | inr e ↦ rw e (λ g. ground (arith, g), λ (p, q). ground (arith, p, q))
]

throttled_iff :
    (unc lim : Run)
    → unc.big_bytes ≡ lim.big_bytes
    → 0 < lim.big_bytes
    → 0 < lim.big_us
    → (throttled (speed unc) (speed lim) ≡ true)
      ↔ ((0 < unc.big_us) × (3 * unc.big_us < lim.big_us))
unfolding throttled speed
throttled_iff unc lim same hb ht =
    let paid : (lim.big_us == 0) ≡ false = ground (arith, ht) in
    elim (Bool-cases (unc.big_us == 0)) [
      | inl e ↦
          let z : unc.big_us ≡ 0 = (==_iff unc.big_us 0).0 e in
          rw (paid, e)
            (
              λ g.
                  let p : 3 * (lim.big_bytes * 1) < 0 * lim.big_us =
                    ltb→lt (3 * (lim.big_bytes * 1)) (0 * lim.big_us) g in
                  absurd (nothing lim.big_us (lim.big_bytes * 1) p),
              λ (p, _). absurd (omega (arith, p, z)),
            )
      | inr e ↦
          let k : 0 < unc.big_us = ground (arith, e) in
          let times = times_iff lim.big_bytes lim.big_us unc.big_us hb in
          rw (paid, e, same)
            (
              λ g. (
                k,
                times.0 (ltb→lt (3 * (lim.big_bytes * unc.big_us)) (lim.big_bytes * lim.big_us) g),
              ),
              λ (_, q).
                  lt→ltb (3 * (lim.big_bytes * unc.big_us)) (lim.big_bytes * lim.big_us)
                    (times.1 q),
            )
    ]

all_iff :
    (a b c d e f g : Bool)
    → (((a && b) && (c && (d && (e && (f && g))))) ≡ true)
      ↔ ((a ≡ true) × (b ≡ true) × (c ≡ true) × (d ≡ true) × (e ≡ true) × (f ≡ true) × (g ≡ true))
all_iff a b c d e f g = ground arith

-- The checks of main, in their order.
tests_iff :
    (unc lim : Run)
    → (passes unc lim ≡ true) ↔ (
        ((unc.big_bytes == lim.big_bytes) ≡ true)
        × (leb body_size unc.big_bytes ≡ true)
        × (is_rate cap_kbps lim.adv ≡ true)
        × (is_rate 0 unc.adv ≡ true)
        × (near_cap (speed lim) ≡ true)
        × (throttled (speed unc) (speed lim) ≡ true)
        × (responsive lim.small_max ≡ true))
unfolding passes
tests_iff unc lim =
    all_iff (unc.big_bytes == lim.big_bytes) (leb body_size unc.big_bytes)
      (is_rate cap_kbps lim.adv) (is_rate 0 unc.adv) (near_cap (speed lim))
      (throttled (speed unc) (speed lim)) (responsive lim.small_max)

passes_iff : (unc lim : Run) → (passes unc lim ≡ true) ↔ IsPaced unc lim
passes_iff unc lim = (
  λ h.
      let (a, b, x, y, near, thr, r) = (tests_iff unc lim).0 h in
      let same : unc.big_bytes ≡ lim.big_bytes = (==_iff unc.big_bytes lim.big_bytes).0 a in
      let whole : body_size ≤ unc.big_bytes = leb→le body_size unc.big_bytes b in
      let some_bytes : 0 < lim.big_bytes = omega (arith, same, whole) in
      let (ns, sl) = (near_cap_iff lim some_bytes).0 near in
      let (st, more) =
        (throttled_iff unc lim same some_bytes (omega (arith, sl, some_bytes))).0 thr in
      record {
        lossless = same;
        whole = whole;
        capped = (is_rate_iff cap_kbps lim.adv).0 x;
        uncapped = (is_rate_iff 0 unc.adv).0 y;
        slow = sl;
        not_slower = ns;
        some_time = st;
        throttles = more;
        answers = (responsive_iff lim.small_max).0 r;
      },
  λ h.
      let some_bytes : 0 < lim.big_bytes = omega (arith, h.lossless, h.whole) in
      (tests_iff unc lim).1 (
        (==_iff unc.big_bytes lim.big_bytes).1 h.lossless,
        le→leb body_size unc.big_bytes h.whole,
        (is_rate_iff cap_kbps lim.adv).1 h.capped,
        (is_rate_iff 0 unc.adv).1 h.uncapped,
        (near_cap_iff lim some_bytes).1 (h.not_slower, h.slow),
        (throttled_iff unc lim h.lossless some_bytes (omega (arith, h.throttles))).1
            (h.some_time, h.throttles),
        (responsive_iff lim.small_max).1 h.answers,
      ),
)

status_zero :
    (b : Bool) → ◌≡◌ {A = Outcome Stop ℕ} (returned (if b then 0 else 1)) (returned 0) → b ≡ true
status_zero true h = refl
status_zero false h = absurd (ground (arith, h))

module _ {X : Type 0} (L : Site X) (P : Place) (alive : Trace → Bool) (lines : String → List String)
    (int_of : String → Option ℤ) (srv : String) where
  compared_iff :
      (m n : Script X Run) (w w1 w2 : Lab X) (unc lim : Run)
      → m w ≡ (returned unc, w1)
      → n w1 ≡ (returned lim, w2)
      → ((compared L P alive lines int_of srv m n w).0 ≡ returned 0) ↔ IsPaced unc lim
  unfolding compared
  compared_iff m n w w1 w2 unc lim e f =
      rw (e, f)
        (
          λ h. (passes_iff unc lim).0 (status_zero (passes unc lim) h),
          λ h. rw ((passes_iff unc lim).1 h) refl,
        )

  -- If the two runs return, then main of data_plane_pacing.py ends with status 0 exactly if they show
  -- a paced plane: both transfers have the same bytes, and at least the body's; each run advertises
  -- its cap; the capped transfer takes between 2/3 and 4/3 of a microsecond for a byte, and more than
  -- three times as long as the other, which takes some time; and small_max of the capped run, the
  -- longest time of a small request beside it, or 0 if none was timed, is below three seconds.
  pub pacing_main_iff :
      (w w1 w2 : Lab X) (unc lim : Run)
      → run L P alive lines int_of srv 0 w ≡ (returned unc, w1)
      → run L P alive lines int_of srv cap_kbps w1 ≡ (returned lim, w2)
      → ((pacing_main L P alive lines int_of srv w).0 ≡ returned 0) ↔ IsPaced unc lim
  unfolding pacing_main
  pacing_main_iff w w1 w2 unc lim e f =
      compared_iff (run L P alive lines int_of srv 0) (run L P alive lines int_of srv cap_kbps) w w1
        w2 unc lim e f
