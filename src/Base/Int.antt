-- ===== src/Base/Int.antt =====
-- Signed integers over the native numbers, with Go's truncated division by a positive constant.
use Prim.Native.Nat.{ℕ, suc, ◌+◌, ◌-◌, ◌*◌, ◌/◌, ◌%◌, ◌≤◌}
use mathlib.Core.Bool.{Bool, false}
use virtual_disks.Base.Tests.{ltb, leb, if◌then◌else◌}

-- `negsuc n` is -(n + 1).
pub data ℤ : Type 0 where
  pos : ℕ → ℤ
  negsuc : ℕ → ℤ

abbrev pub pos_part : ℤ → ℕ
pos_part (pos n) = n
pos_part (negsuc n) = 0

abbrev pub neg_part : ℤ → ℕ
neg_part (pos n) = 0
neg_part (negsuc n) = suc n

-- a - b, as an integer.
abbrev pub sub_ℕ : ℕ → ℕ → ℤ
sub_ℕ a b = if leb b a then pos (a - b) else negsuc (b - a - 1)

infixl 65 ◌+ℤ◌ ◌-ℤ◌
infix 50 ◌≤ℤ◌
unfoldable pub ◌+ℤ◌ : ℤ → ℤ → ℤ
a +ℤ b = sub_ℕ (pos_part a + pos_part b) (neg_part a + neg_part b)

unfoldable pub ◌-ℤ◌ : ℤ → ℤ → ℤ
a -ℤ b = sub_ℕ (pos_part a + neg_part b) (neg_part a + pos_part b)

abbrev pub ◌≤ℤ◌ : ℤ → ℤ → Type 0
a ≤ℤ b = pos_part a + neg_part b ≤ pos_part b + neg_part a

abbrev pub ltb_ℤ : ℤ → ℤ → Bool
ltb_ℤ a b = ltb (pos_part a + neg_part b) (pos_part b + neg_part a)

abbrev pub leb_ℤ : ℤ → ℤ → Bool
leb_ℤ a b = leb (pos_part a + neg_part b) (pos_part b + neg_part a)

-- Minus a number.
abbrev pub negate_ℕ : ℕ → ℤ
negate_ℕ n = sub_ℕ 0 n

-- Go's `/` and `%` round towards zero; the remainder has the sign of the dividend.
abbrev pub quot : ℤ → ℕ → ℤ
quot (pos n) d = pos (n / d)
quot (negsuc n) d = negate_ℕ (suc n / d)

abbrev pub rem : ℤ → ℕ → ℤ
rem (pos n) d = pos (n % d)
rem (negsuc n) d = negate_ℕ (suc n % d)

abbrev pub is_zero : ℤ → Bool
is_zero (pos n) = leb n 0
is_zero (negsuc n) = false

-- A product with a number.
abbrev pub scale : ℤ → ℕ → ℤ
scale (pos n) d = pos (n * d)
scale (negsuc n) d = negate_ℕ (suc n * d)
