-- ===== src/Base/Words.antt =====
-- Signed and bitwise operations on 16-bit words.
use Prim.Native.Nat.{ℕ, zero, suc, ◌+◌, ◌-◌, ◌*◌, ◌/◌, ◌%◌, ◌^◌, ◌≤◌, ◌<◌}
use mathlib.Core.Path.{◌≡◌}
use native.Mathlib.Omega.{arith}
use minipro.Base.Tests.{ltb, if◌then◌else◌}

-- `int`: a number, or minus a number and one more
pub data ℤ : Type 0 where
  pos : ℕ → ℤ
  negsuc : ℕ → ℤ

-- conversion to `uint16_t`
unfoldable pub to_uint16 : ℤ → ℕ
to_uint16 (pos n) = n % 2 ^ 16
to_uint16 (negsuc n) = 2 ^ 16 - 1 - n % 2 ^ 16

-- conversion of a `uint16_t` to `int16_t`
unfoldable pub to_int16 : ℕ → ℤ
to_int16 v = if ltb v (2 ^ 15) then pos v else negsuc (2 ^ 16 - 1 - v)

-- the values of `int16_t`
abbrev pub IsInt16 : ℤ → Type 0
IsInt16 (pos n) = n < 2 ^ 15
IsInt16 (negsuc n) = n < 2 ^ 15

pub to_int16-to_uint16 : (z : ℤ) → IsInt16 z → to_int16 (to_uint16 z) ≡ z
unfolding to_int16 to_uint16
to_int16-to_uint16 (pos n) h = ground arith
to_int16-to_uint16 (negsuc n) h = ground arith

-- `^` on the lowest k bits
unfoldable pub xor_bits : (k : ℕ) → ℕ → ℕ → ℕ
xor_bits zero a b = 0
xor_bits (suc k) a b = (a + b) % 2 + 2 * xor_bits k (a / 2) (b / 2)

-- k ones
abbrev pub ones : ℕ → ℕ
ones zero = 0
ones (suc k) = 1 + 2 * ones k

half : (n : ℕ) → (1 + 2 * n) / 2 ≡ n
half n = omega arith

-- `^` with ones only is the complement.
pub xor_bits-ones : (k a : ℕ) → a ≤ ones k → xor_bits k a (ones k) ≡ ones k - a
unfolding xor_bits
xor_bits-ones zero a h = omega arith
xor_bits-ones (suc k) a h = rw (half (ones k), xor_bits-ones k (a / 2) (omega arith)) (omega arith)
