-- ===== src/Base/Int.antt =====
-- Signed integers over the native numbers, and Go's conversions between the machine's.
use Prim.Native.Nat.{ℕ, ◌+◌, ◌-◌, ◌%◌, ◌^◌, ◌<◌}
use mathlib.Core.Path.{◌≡◌}
use native.Mathlib.Omega.{arith}
use net_flux.Base.Tests.{ltb, leb, if◌then◌else◌}

-- `negsuc n` is -(n + 1).
pub data ℤ : Type 0 where
  pos : ℕ → ℤ
  negsuc : ℕ → ℤ

infixl 6 ◌+ℤ◌
-- A number less another.
unfoldable pub minus : ℕ → ℕ → ℤ
minus m n = if leb n m then pos (m - n) else negsuc (n - m - 1)

unfoldable pub ◌+ℤ◌ : ℤ → ℤ → ℤ
pos m +ℤ pos n = pos (m + n)
pos m +ℤ negsuc n = minus m (n + 1)
negsuc m +ℤ pos n = minus n (m + 1)
negsuc m +ℤ negsuc n = negsuc (m + n + 1)

-- `uint64(v)` of an `int`
unfoldable pub uint64 : ℤ → ℕ
uint64 (pos n) = n % 2 ^ 64
uint64 (negsuc n) = 2 ^ 64 - 1 - n % 2 ^ 64

-- `int(n)` of a `uint64`
unfoldable pub int_of : ℕ → ℤ
int_of n = if ltb n (2 ^ 63) then pos n else negsuc (2 ^ 64 - 1 - n)

-- `int32(n)` of a number of at least 32 bits, given by those.
unfoldable pub int32_of : ℕ → ℤ
int32_of n = let low = n % 2 ^ 32 in if ltb low (2 ^ 31) then pos low else negsuc (2 ^ 32 - 1 - low)

-- `int32(v)` of an `int`
unfoldable pub int32 : ℤ → ℤ
int32 v = int32_of (uint64 v)

-- The values that an `int32` holds.
abbrev pub FitsInt32 : ℤ → Type 0
FitsInt32 (pos n) = n < 2 ^ 31
FitsInt32 (negsuc n) = n < 2 ^ 31

pub int32-FitsInt32 : (v : ℤ) → FitsInt32 v → int32 v ≡ v
unfolding int32 int32_of uint64
int32-FitsInt32 (pos n) fits = ground arith
int32-FitsInt32 (negsuc n) fits = ground arith
