-- ===== src/Prelude/Int.antt =====
-- Signed integers over the native numbers.
use Prim.Native.Nat.{ℕ, ◌+◌, ◌-◌}
use mathlib.Core.Bool.{Bool, true, false}
use nether.Prelude.Tests.{leb, if◌then◌else◌}

-- `negsuc n` is -(n + 1).
pub data ℤ : Type 0 where
  pos : ℕ → ℤ
  negsuc : ℕ → ℤ

-- a <= b
abbrev pub leℤ : ℤ → ℤ → Bool
leℤ (pos a) (pos b) = leb a b
leℤ (pos a) (negsuc b) = false
leℤ (negsuc a) (pos b) = true
leℤ (negsuc a) (negsuc b) = leb b a

-- a - b of natural numbers
abbrev pub diff : ℕ → ℕ → ℤ
diff a b = if leb b a then pos (a - b) else negsuc (b - a - 1)

-- a + b, for a natural number b
abbrev pub plus : ℤ → ℕ → ℤ
plus (pos a) b = pos (a + b)
plus (negsuc a) b = diff b (a + 1)

-- a - b
abbrev pub minus : ℤ → ℤ → ℤ
minus (pos a) (pos b) = diff a b
minus a (negsuc b) = plus a (b + 1)
minus (negsuc a) (pos b) = negsuc (a + b)
