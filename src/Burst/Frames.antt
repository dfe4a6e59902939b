-- ===== src/Burst/Frames.antt =====
-- recv_frame of scripts/swerver_guest_burst.py, which ends at a newline that ends what came, on one frame.
use mathlib.Core.List.{append-nil, append_assoc}
use nether.Prelude.{
  ℕ, ◌≡◌, refl, sym, ap, ◌∙◌, Bool, true, false, ◌&&◌, Option, some, List, [], ◌∷◌, ◌++◌, ◌==◌,
  arith, Bool-cases, inl, inr,
}
use nether.Prelude.Int.{ℤ}
use nether.Prelude.Outcome.{returned}
use nether.Os.{Bytes}
use nether.Wire.{Recv, chunk, fails, rs, newline, has, after}
use nether.Wire.Framing.{IsData, flat, frame_bytes}
use nether.Wire.Framing.Bytewise.{
  write_escaped, has-write_escaped, has-part, after-append, after-part,
}
use nether.Burst.{
  ends_line, before_last, after_last, but_last, is_whole, split_frame, recv_from, recv_frame,
}

module _ (x : ℕ) where
  before_last-part : (a b : Bytes) → has x b ≡ false → before_last x (a ++ (x ∷ b)) ≡ a
  unfolding before_last
  before_last-part [] b h = rw h refl
  before_last-part (y ∷ a) b h =
      let e : has x (a ++ (x ∷ b)) ≡ true = has-part x a b in
      rw e (ap (λ t. y ∷ t) (before_last-part a b h))

  after_last-part : (a b : Bytes) → has x b ≡ false → after_last x (a ++ (x ∷ b)) ≡ b
  unfolding after_last
  after_last-part [] b h = rw h refl
  after_last-part (y ∷ a) b h =
      let e : has x (a ++ (x ∷ b)) ≡ true = has-part x a b in rw e (after_last-part a b h)

but_last-line : (a : Bytes) (y : ℕ) → but_last (a ++ (y ∷ [])) ≡ a
unfolding but_last
but_last-line [] y = refl
but_last-line (x ∷ []) y = refl
but_last-line (x ∷ z ∷ a) y = ap (λ t. x ∷ t) (but_last-line (z ∷ a) y)

ends_line-line : (a : Bytes) → ends_line (a ++ (newline ∷ [])) ≡ true
unfolding ends_line
ends_line-line [] = refl
ends_line-line (x ∷ []) = refl
ends_line-line (x ∷ z ∷ a) = ends_line-line (z ∷ a)

-- If a buffer has a delimiter and ends with a newline, then a newline is behind the first delimiter.
after-newline : (b : Bytes) → has rs b ≡ true → ends_line b ≡ true → has newline (after rs b) ≡ true
unfolding has after ends_line
after-newline [] m e = cc
after-newline (x ∷ []) m e = absurd (ground (arith, m, e))
after-newline (x ∷ y ∷ b) m e = elim (Bool-cases (x == rs)) [
  | inl p ↦ rw p (line (y ∷ b) e)
  | inr p ↦ rw p (after-newline (y ∷ b) (rw p at m) e)
]
  where
    line : (b : Bytes) → ends_line b ≡ true → has newline b ≡ true
    line [] h = cc
    line (x ∷ []) h = rw h refl
    line (x ∷ y ∷ b) h = ground (arith, line (y ∷ b) h)

-- A part of one line that has its newline is all of it.
line-all :
    (a tail exit : Bytes)
    → has newline exit ≡ false
    → has newline a ≡ true
    → a ++ tail ≡ exit ++ (newline ∷ [])
    → tail ≡ []
unfolding has
line-all [] tail exit one m f = cc
line-all (x ∷ a) [] exit one m f = refl
line-all (x ∷ []) (t ∷ tail) [] one m f = cc
line-all (x ∷ z ∷ a) (t ∷ tail) [] one m f = cc
line-all (x ∷ a) (t ∷ tail) (y ∷ exit) one m f =
    let g : a ++ (t ∷ tail) ≡ exit ++ (newline ∷ []) = cc in
    let e : x ≡ y = cc in
    elim (Bool-cases (y == newline)) [
      | inl p ↦ absurd (ground (arith, p, one))
      | inr p ↦
          let q : (x == newline) ≡ false = rw e p in
          line-all a (t ∷ tail) exit (rw p at one) (rw q at m) g
    ]

has-line : (a : Bytes) → has rs a ≡ false → has rs (a ++ (newline ∷ [])) ≡ false
unfolding has
has-line [] h = refl
has-line (x ∷ a) h = elim (Bool-cases (x == rs)) [
  | inl e ↦ absurd (ground (arith, e, h))
  | inr e ↦ rw e (has-line a (rw e at h))
]

split_frame-parts :
    (to_int : Bytes → Option ℤ) (n : ℤ) (b before line exit : Bytes)
    → before_last rs b ≡ before
    → after_last rs b ≡ line
    → but_last line ≡ exit
    → to_int exit ≡ some n
    → split_frame to_int b ≡ returned (before, n)
unfolding split_frame
split_frame-parts to_int n b before line exit e f g h = rw (f, g, h, e, split_frame) refl

and_parts : (a b : Bool) → (a && b) ≡ true → (a ≡ true) × (b ≡ true)
and_parts true b h = (refl, h)
and_parts false b h = cc

-- The bytes of one frame, with nothing behind it.
module _ (body exit : Bytes) (one_line : has newline exit ≡ false)
    (plain : has rs exit ≡ false) where
  abbrev line : Bytes
  line = exit ++ (newline ∷ [])

  plain_line : has rs line ≡ false
  plain_line = has-line exit plain

  abbrev whole : Bytes
  whole = write_escaped body ++ (rs ∷ line)

  whole_end : is_whole whole ≡ true
  unfolding is_whole
  whole_end =
      let e : whole ≡ (write_escaped body ++ (rs ∷ exit)) ++ (newline ∷ []) =
        sym (append_assoc (write_escaped body) (rs ∷ exit) (newline ∷ [])) in
      rw (has-part rs (write_escaped body) line)
        (rw e (ends_line-line (write_escaped body ++ (rs ∷ exit))))

  split_frame-whole :
      (to_int : Bytes → Option ℤ) (n : ℤ)
      → to_int exit ≡ some n
      → split_frame to_int whole ≡ returned (write_escaped body, n)
  split_frame-whole to_int n h =
      split_frame-parts to_int n whole (write_escaped body) line exit
        (before_last-part rs (write_escaped body) line plain_line)
        (after_last-part rs (write_escaped body) line plain_line) (but_last-line exit newline) h

  -- A buffer at which the loop ends is the whole frame.
  is_whole-all : (b tail : Bytes) → is_whole b ≡ true → b ++ tail ≡ whole → b ≡ whole
  unfolding is_whole
  is_whole-all b tail h f =
      let (m, e) = and_parts (has rs b) (ends_line b) h in
      let g : after rs b ++ tail ≡ line =
        sym (after-append rs b tail m)
        ∙ ap (after rs) f
        ∙ after-part rs (write_escaped body) line (has-write_escaped body) in
      let z : tail ≡ [] = line-all (after rs b) tail exit one_line (after-newline b m e) g in
      sym (append-nil b) ∙ ap (λ t. b ++ t) (sym z) ∙ f

  recv_from-frame :
      (to_int : Bytes → Option ℤ) (n : ℤ) (b : Bytes) (evs : List Recv)
      → to_int exit ≡ some n
      → IsData evs
      → is_whole b ≡ false
      → b ++ flat evs ≡ whole
      → (recv_from to_int b evs).0 ≡ returned (write_escaped body, n)
  unfolding recv_from flat
  recv_from-frame to_int n b [] reads d more f =
      let e : is_whole b ≡ true = rw append-nil at (ap is_whole f ∙ whole_end) in cc
  recv_from-frame to_int n b (chunk [] ∷ evs) reads d more f = elim d [ ]
  recv_from-frame to_int n b (fails ∷ evs) reads d more f = elim d [ ]
  recv_from-frame to_int n b (chunk (c ∷ cs) ∷ evs) reads d more f =
      let g : (b ++ (c ∷ cs)) ++ flat evs ≡ whole = append_assoc b (c ∷ cs) (flat evs) ∙ f in
      elim (Bool-cases (is_whole (b ++ (c ∷ cs)))) [
        | inl done ↦ rw done (
            ap (split_frame to_int) (is_whole-all (b ++ (c ∷ cs)) (flat evs) done g)
            ∙ split_frame-whole to_int n reads)
        | inr not_yet ↦ rw not_yet (recv_from-frame to_int n (b ++ (c ∷ cs)) evs reads d not_yet g)
      ]

  -- recv_frame returns the body, as it was escaped, and the exit of a frame behind which nothing
  -- comes, however it is cut into pieces. The exit is one line that `int` reads and has no delimiter,
  -- and no recv fails or reports the end of the stream.
  pub recv_frame-frame :
      (to_int : Bytes → Option ℤ) (n : ℤ) (evs : List Recv)
      → to_int exit ≡ some n
      → IsData evs
      → flat evs ≡ frame_bytes body exit []
      → (recv_frame to_int evs).0 ≡ returned (write_escaped body, n)
  unfolding recv_frame frame_bytes is_whole has
  recv_frame-frame to_int n evs reads d f = recv_from-frame to_int n [] evs reads d refl f
