-- ===== src/Base/Int.antt =====
-- Signed integers over the native numbers, and Go's int64.
use Prim.Native.Nat.{ℕ, zero, suc, ◌+◌, ◌-◌, ◌*◌, ◌%◌, ◌^◌, ◌≤◌}
use mathlib.Core.Path.{◌≡◌}
use mathlib.Core.Bool.{Bool}
use native.Mathlib.Omega.{arith}
use robotsyes.Base.Tests.{ltb, leb, if◌then◌else◌}

-- `negsuc n` is -(n + 1).
pub data ℤ : Type 0 where
  pos : ℕ → ℤ
  negsuc : ℕ → ℤ

abbrev pub pos_part : ℤ → ℕ
pos_part (pos n) = n
pos_part (negsuc n) = 0

abbrev pub neg_part : ℤ → ℕ
neg_part (pos n) = 0
neg_part (negsuc n) = suc n

-- a - b, as an integer.
abbrev pub sub_ℕ : ℕ → ℕ → ℤ
sub_ℕ a b = if leb b a then pos (a - b) else negsuc (b - a - 1)

infixl 65 ◌-ℤ◌
infixl 70 ◌*ℤ◌
infix 50 ◌≤ℤ◌
unfoldable pub ◌-ℤ◌ : ℤ → ℤ → ℤ
a -ℤ b = sub_ℕ (pos_part a + neg_part b) (neg_part a + pos_part b)

unfoldable pub ◌*ℤ◌ : ℤ → ℤ → ℤ
a *ℤ b =
    sub_ℕ (pos_part a * pos_part b + neg_part a * neg_part b)
      (pos_part a * neg_part b + neg_part a * pos_part b)

abbrev pub ◌≤ℤ◌ : ℤ → ℤ → Type 0
a ≤ℤ b = pos_part a + neg_part b ≤ pos_part b + neg_part a

abbrev pub leb_ℤ : ℤ → ℤ → Bool
leb_ℤ a b = leb (pos_part a + neg_part b) (pos_part b + neg_part a)

abbrev pub ltb_ℤ : ℤ → ℤ → Bool
ltb_ℤ a b = ltb (pos_part a + neg_part b) (pos_part b + neg_part a)

abbrev pub two_63 : ℕ
two_63 = 2 ^ 63

abbrev pub two_64 : ℕ
two_64 = 2 ^ 64

-- The residue of an integer modulo 2^64, as an unsigned word.
unfoldable pub word64 : ℤ → ℕ
word64 (pos n) = n % two_64
word64 (negsuc n) = two_64 - 1 - n % two_64

-- The two's complement reading of a word.
unfoldable pub signed64 : ℕ → ℤ
signed64 w = if ltb w two_63 then pos w else negsuc (two_64 - 1 - w)

-- An int64 operation computes exactly and then wraps.
unfoldable pub wrap64 : ℤ → ℤ
unfolding word64 signed64
wrap64 a = signed64 (word64 a)

-- The range of int64.
abbrev pub IsInt64 : ℤ → Type 0
IsInt64 a = (pos_part a + 1 ≤ two_63) × (neg_part a ≤ two_63)

pub wrap64_of_IsInt64 : (a : ℤ) → IsInt64 a → wrap64 a ≡ a
unfolding wrap64
wrap64_of_IsInt64 (pos n) h = ground arith
wrap64_of_IsInt64 (negsuc n) h = ground arith

-- `if n <= 0 { n = d }`
unfoldable pub positive_or : ℤ → ℕ → ℕ
positive_or (pos zero) d = d
positive_or (pos (suc n)) d = suc n
positive_or (negsuc n) d = d

pub positive_or_pos : (n : ℤ) (d : ℕ) → 1 ≤ d → 1 ≤ positive_or n d
unfolding positive_or
positive_or_pos (pos zero) d h = h
positive_or_pos (pos (suc n)) d h = omega arith
positive_or_pos (negsuc n) d h = h

infixl 65 ◌+ℤ◌
unfoldable pub ◌+ℤ◌ : ℤ → ℤ → ℤ
a +ℤ b = sub_ℕ (pos_part a + pos_part b) (neg_part a + neg_part b)
