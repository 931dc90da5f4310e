-- ===== src/Base/Word.antt =====
-- Machine integers: conversions to and between 32-bit and 64-bit words, which wrap around.
use Prim.Native.Nat.{ℕ, ◌+◌, ◌-◌, ◌%◌, ◌^◌, ◌<◌}
use mathlib.Core.Path.{◌≡◌}
use native.Mathlib.Omega.{arith}
use virtual_disks.Base.Tests.{ltb, if◌then◌else◌}
use virtual_disks.Base.Int.{ℤ, pos, negsuc, ◌+ℤ◌, ◌-ℤ◌}

-- `uint64(z)`: the two's complement bit pattern.
unfoldable pub uint64 : ℤ → ℕ
uint64 (pos n) = n % 2 ^ 64
uint64 (negsuc n) = 2 ^ 64 - 1 - n % 2 ^ 64

-- `int64(b)` of a 64-bit pattern.
unfoldable pub from_bits64 : ℕ → ℤ
from_bits64 b = if ltb b (2 ^ 63) then pos b else negsuc (2 ^ 64 - 1 - b)

-- `int64(z)`
unfoldable pub int64 : ℤ → ℤ
unfolding uint64 from_bits64
int64 z = from_bits64 (uint64 z)

-- `int32(z)`
unfoldable pub int32 : ℤ → ℤ
int32 (pos n) = let b = n % 2 ^ 32 in if ltb b (2 ^ 31) then pos b else negsuc (2 ^ 32 - 1 - b)
int32 (negsuc n) =
    let b = 2 ^ 32 - 1 - n % 2 ^ 32 in if ltb b (2 ^ 31) then pos b else negsuc (2 ^ 32 - 1 - b)

-- In range, the conversions change nothing.
pub uint64-pos : (n : ℕ) → n < 2 ^ 64 → uint64 (pos n) ≡ n
unfolding uint64
uint64-pos n h = omega arith

pub int64-pos : (n : ℕ) → n < 2 ^ 63 → int64 (pos n) ≡ pos n
unfolding int64
int64-pos n h = ground arith

pub int32-pos : (n : ℕ) → n < 2 ^ 31 → int32 (pos n) ≡ pos n
unfolding int32
int32-pos n h = ground arith

pub +ℤ_pos : (a b : ℕ) → pos a +ℤ pos b ≡ pos (a + b)
unfolding ◌+ℤ◌
+ℤ_pos a b = ground arith

pub -ℤ_pos : (a b : ℕ) → b < a + 1 → pos a -ℤ pos b ≡ pos (a - b)
unfolding ◌-ℤ◌
-ℤ_pos a b h = ground arith
