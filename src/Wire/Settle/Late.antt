-- ===== src/Wire/Settle/Late.antt =====
-- read_v1_settle of scripts/proto_v2.py on a reply that pauses after its first line.

use nether.Prelude.{
  ℕ, ◌<◌, ◌≡◌, refl, ap, ◌∙◌, true, false, Option, some, [], ◌∷◌, ◌++◌, ◌==◌, arith, Bool-cases,
  inl, inr, ==_iff,
}
use nether.Prelude.Int.{ℤ}
use nether.Prelude.Outcome.{returned}
use nether.Os.{Bytes}
use nether.Wire.{Recv, chunk, fails, rs, newline, has, before, read_framed}
use nether.Wire.Framing.{IsData, flat, frame_bytes, read_framed-frame}
use nether.Wire.Framing.Bytewise.{write_escaped, has-write_escaped, before-part}
use nether.Wire.Settle.{
  Timed, bare, is_bare, patience, gave_up, settle_from, read_v1_settle, untimed,
}
use mathlib.Core.Logic.{◌≢◌}

is_bare-parts : (c : Bytes) → is_bare c ≡ true → (has rs c ≡ false) × (has newline c ≡ true)
unfolding is_bare
is_bare-parts c h = elim (Bool-cases (has rs c)) [
  | inl e ↦ absurd (ground (arith, e, h))
  | inr e ↦ elim (Bool-cases (has newline c)) [
    | inl f ↦ (e, f)
    | inr f ↦ absurd (ground (arith, e, f, h))
  ]
]

settle_from-gives_up :
    (settle limit t e : ℕ) (c : Bytes) (r : Recv) (evs : Timed)
    → t < limit
    → is_bare c ≡ true
    → settle < e
    → (settle_from settle limit t c ((e, r) ∷ evs)).0 ≡ returned (bare (before newline c))
unfolding settle_from patience gave_up
settle_from-gives_up settle limit t e c fails evs early b slow = ground (arith, b)
settle_from-gives_up settle limit t e c (chunk []) evs early b slow = ground (arith, b)
settle_from-gives_up settle limit t e c (chunk (x ∷ xs)) evs early b slow = ground (arith, b)

has-before : (c : Bytes) → has newline (before newline c) ≡ false
unfolding has before
has-before [] = refl
has-before (x ∷ c) = ground (arith, has-before c)

has-newline-before :
    (c tail : Bytes)
    → has rs c ≡ false
    → has newline c ≡ true
    → has newline (before rs (c ++ tail)) ≡ true
unfolding has before
has-newline-before [] tail m nl = cc
has-newline-before (x ∷ c) tail m nl = ground (arith, has-newline-before c tail)

newline-write_escaped : (b : Bytes) → has newline (write_escaped b) ≡ has newline b
unfolding has write_escaped
newline-write_escaped [] = refl
newline-write_escaped (x ∷ b) = elim (Bool-cases (x == 0x1e)) [
  | inl e ↦ rw ((==_iff x 0x1e).0 e) (newline-write_escaped b)
  | inr n ↦ elim (Bool-cases (x == 0x1f)) [
    | inl e ↦ rw ((==_iff x 0x1f).0 e) (newline-write_escaped b)
    | inr m ↦ rw (n, m) (ground (arith, newline-write_escaped b))
  ]
]

-- What an early line stands for has a newline, and the line has none.
lost :
    (body exit rest c tail : Bytes)
    → has rs c ≡ false
    → has newline c ≡ true
    → c ++ tail ≡ frame_bytes body exit rest
    → before newline c ≢ body
unfolding frame_bytes
lost body exit rest c tail m nl f e =
    let w : has newline (before rs (c ++ tail)) ≡ true = has-newline-before c tail m nl in
    let v : before rs (c ++ tail) ≡ write_escaped body =
      ap (before rs) f ∙ before-part rs (write_escaped body) _ (has-write_escaped body) in
    let u : has newline (write_escaped (before newline c)) ≡ true = rw e (rw v at w) in
    let z : has newline (write_escaped (before newline c)) ≡ false =
      newline-write_escaped (before newline c) ∙ has-before c in
    cc

settle_from-piece :
    (settle limit d : ℕ) (c : Bytes) (evs : Timed)
    → d < limit
    → has rs c ≡ false
    → has newline c ≡ true
    → settle_from settle limit 0 [] ((d, chunk c) ∷ evs) ≡ settle_from settle limit d c evs
unfolding settle_from patience is_bare has
settle_from-piece settle limit d [] evs early m n = cc
settle_from-piece settle limit d (x ∷ c) evs early m n = ground (arith, m)

module _ (body exit rest : Bytes) (one_line : has newline exit ≡ false) where
  -- If the first piece of a reply, which comes in time, is a complete OK or ERR line with no
  -- delimiter, and what follows comes later than the settling time, then the old reader takes the
  -- line for the whole reply, and the line is not the body. On the same bytes read_framed returns the body and the exit. The bytes
  -- are a frame of one exit line that `int` reads, and no recv fails or reports the end.
  pub read_v1_settle-truncates :
      (to_int : Bytes → Option ℤ) (n : ℤ) (settle limit d e : ℕ) (c : Bytes) (r : Recv)
      (evs : Timed)
      → to_int exit ≡ some n
      → d < limit
      → is_bare c ≡ true
      → settle < e
      → IsData (untimed ((d, chunk c) ∷ ((e, r) ∷ evs)))
      → flat (untimed ((d, chunk c) ∷ ((e, r) ∷ evs))) ≡ frame_bytes body exit rest
      → ((read_v1_settle settle limit ((d, chunk c) ∷ ((e, r) ∷ evs))).0
          ≡ returned (bare (before newline c)))
        × ((read_framed to_int (untimed ((d, chunk c) ∷ ((e, r) ∷ evs)))).0
            ≡ returned (body, some n))
        × (before newline c ≢ body)
  unfolding read_v1_settle flat untimed
  read_v1_settle-truncates to_int n settle limit d e c r evs reads early b slow d' f =
      let (m, nl) = is_bare-parts c b in
      (
        rw (settle_from-piece settle limit d c ((e, r) ∷ evs) early m nl)
            (settle_from-gives_up settle limit d e c r evs early b slow),
        read_framed-frame body exit rest one_line to_int n _ reads d' f,
        lost body exit rest c (flat (untimed ((e, r) ∷ evs))) m nl f,
      )
