-- ===== src/Wire/Framing/Bytewise.antt =====
-- The agent's escaping (tools/agent.c), its inverse, and the parts of a frame, byte by byte.
use Prim.Native.Nat.{bit_xor}
use nether.Prelude.{
  ℕ, ◌≡◌, refl, ap, true, false, ◌||◌, [], ◌∷◌, ◌++◌, ◌==◌, arith, if◌then◌else◌, Bool-cases, inl,
  inr, ==_iff,
}
use nether.Os.{Bytes}
use nether.Wire.{rs, has, before, after, unescape}

-- The bytes that write_escaped writes in all.
unfoldable pub write_escaped : Bytes → Bytes
write_escaped [] = []
write_escaped (b ∷ bs) =
    let rest = write_escaped bs in
    if b == 0x1e || b == 0x1f then 0x1f ∷ (bit_xor b 0x40 ∷ rest) else b ∷ rest

-- The escaped body is read back as the body, whatever bytes it has.
pub unescape-write_escaped : (body : Bytes) → unescape (write_escaped body) ≡ body
unfolding unescape write_escaped
unescape-write_escaped [] = refl
unescape-write_escaped (b ∷ bs) = elim (Bool-cases (b == 0x1e)) [
  | inl e ↦ rw ((==_iff b 0x1e).0 e) (ap (λ t. 0x1e ∷ t) (unescape-write_escaped bs))
  | inr n ↦ elim (Bool-cases (b == 0x1f)) [
    | inl e ↦ rw ((==_iff b 0x1f).0 e) (ap (λ t. 0x1f ∷ t) (unescape-write_escaped bs))
    | inr m ↦ rw (n, m) (rw m (ap (λ t. b ∷ t) (unescape-write_escaped bs)))
  ]
]

-- No frame delimiter stands in an escaped body.
pub has-write_escaped : (body : Bytes) → has rs (write_escaped body) ≡ false
unfolding has write_escaped
has-write_escaped [] = refl
has-write_escaped (b ∷ bs) = elim (Bool-cases (b == 0x1e)) [
  | inl e ↦ rw ((==_iff b 0x1e).0 e) (has-write_escaped bs)
  | inr n ↦ elim (Bool-cases (b == 0x1f)) [
    | inl e ↦ rw ((==_iff b 0x1f).0 e) (has-write_escaped bs)
    | inr m ↦ rw (n, m) (rw n (has-write_escaped bs))
  ]
]

module _ (x : ℕ) where
  pub has-append : (a b : Bytes) → has x a ≡ true → has x (a ++ b) ≡ true
  unfolding has
  has-append [] b h = cc
  has-append (y ∷ a) b h = ground (arith, has-append a b)

  pub before-append : (a b : Bytes) → has x a ≡ true → before x (a ++ b) ≡ before x a
  unfolding has before
  before-append [] b h = cc
  before-append (y ∷ a) b h = ground (arith, before-append a b)

  pub after-append : (a b : Bytes) → has x a ≡ true → after x (a ++ b) ≡ after x a ++ b
  unfolding has after
  after-append [] b h = cc
  after-append (y ∷ a) b h = ground (arith, after-append a b)

  -- A part without the byte, the byte, and the rest.
  pub before-part : (a b : Bytes) → has x a ≡ false → before x (a ++ (x ∷ b)) ≡ a
  unfolding has before
  before-part [] b h = ground arith
  before-part (y ∷ a) b h = ground (arith, before-part a b)

  pub after-part : (a b : Bytes) → has x a ≡ false → after x (a ++ (x ∷ b)) ≡ b
  unfolding has after
  after-part [] b h = ground arith
  after-part (y ∷ a) b h = ground (arith, after-part a b)

  pub has-part : (a b : Bytes) → has x (a ++ (x ∷ b)) ≡ true
  unfolding has
  has-part [] b = ground arith
  has-part (y ∷ a) b = ground (arith, has-part a b)
