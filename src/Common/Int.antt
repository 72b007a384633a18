-- ===== src/Common/Int.antt =====
-- Signed integers over the native numbers, and the two's complement words that stand for them.
use Prim.Native.Nat.{ℕ, ◌+◌, ◌-◌, ◌%◌, ◌<◌, min, max}
use mathlib.Core.Bool.{Bool, true, false}
use mathlib.Core.Path.{◌≡◌}
use native.Mathlib.Omega.{arith}
use rustkvm.Common.Tests.{ltb, if◌then◌else◌}

-- `negsuc n` is -(n + 1).
pub data ℤ : Type 0 where
  pos : ℕ → ℤ
  negsuc : ℕ → ℤ

-- An integer in the range of `i8` or `i32`.
abbrev pub IsI8 : ℤ → Type 0
IsI8 (pos n) = n < 128
IsI8 (negsuc n) = n < 128

abbrev pub IsI32 : ℤ → Type 0
IsI32 (pos n) = n < 2147483648
IsI32 (negsuc n) = n < 2147483648

-- `x as u8` for an `i8`, and `b as i8` for a byte.
abbrev pub i8_to_u8 : ℤ → ℕ
i8_to_u8 (pos n) = n % 256
i8_to_u8 (negsuc n) = 255 - n % 256

abbrev pub u8_to_i8 : ℕ → ℤ
u8_to_i8 b = if ltb b 128 then pos b else negsuc (255 - b)

-- The bit pattern of an `i32`, and the integer that a pattern stands for.
abbrev pub i32_to_u32 : ℤ → ℕ
i32_to_u32 (pos n) = n % 4294967296
i32_to_u32 (negsuc n) = 4294967295 - n % 4294967296

abbrev pub u32_to_i32 : ℕ → ℤ
u32_to_i32 w = if ltb w 2147483648 then pos w else negsuc (4294967295 - w)

pub u8_to_i8-i8_to_u8 : (x : ℤ) → IsI8 x → u8_to_i8 (i8_to_u8 x) ≡ x
u8_to_i8-i8_to_u8 (pos n) h = ground arith
u8_to_i8-i8_to_u8 (negsuc n) h = ground arith

pub u32_to_i32-i32_to_u32 : (x : ℤ) → IsI32 x → u32_to_i32 (i32_to_u32 x) ≡ x
u32_to_i32-i32_to_u32 (pos n) h = ground arith
u32_to_i32-i32_to_u32 (negsuc n) h = ground arith

pub i32_to_u32-lt : (x : ℤ) → i32_to_u32 x < 4294967296
i32_to_u32-lt (pos n) = omega arith
i32_to_u32-lt (negsuc n) = omega arith

-- The bit pattern of an `i64`, and the integer that a pattern stands for: `x as u64` and `w as i64`.
abbrev pub i64_to_u64 : ℤ → ℕ
i64_to_u64 (pos n) = n % 18446744073709551616
i64_to_u64 (negsuc n) = 18446744073709551615 - n % 18446744073709551616

abbrev pub u64_to_i64 : ℕ → ℤ
u64_to_i64 w = if ltb w 9223372036854775808 then pos w else negsuc (18446744073709551615 - w)

-- `a + b` and `a - b` of `i64` in a release build, which wraps around.
unfoldable pub add_i64 : ℤ → ℤ → ℤ
add_i64 a b = u64_to_i64 ((i64_to_u64 a + i64_to_u64 b) % 18446744073709551616)

unfoldable pub sub_i64 : ℤ → ℤ → ℤ
sub_i64 a b =
    u64_to_i64 ((i64_to_u64 a + (18446744073709551616 - i64_to_u64 b)) % 18446744073709551616)

abbrev pub is_negative : ℤ → Bool
is_negative (pos n) = false
is_negative (negsuc n) = true

abbrev pub min_ℤ : ℤ → ℤ → ℤ
min_ℤ (pos m) (pos n) = pos (min m n)
min_ℤ (pos m) (negsuc n) = negsuc n
min_ℤ (negsuc m) (pos n) = negsuc m
min_ℤ (negsuc m) (negsuc n) = negsuc (max m n)

abbrev pub max_ℤ : ℤ → ℤ → ℤ
max_ℤ (pos m) (pos n) = pos (max m n)
max_ℤ (pos m) (negsuc n) = pos m
max_ℤ (negsuc m) (pos n) = pos n
max_ℤ (negsuc m) (negsuc n) = negsuc (min m n)

-- The sum of two integers.
infix 60 ◌+ℤ◌
abbrev pub ◌+ℤ◌ : ℤ → ℤ → ℤ
pos m +ℤ pos n = pos (m + n)
pos m +ℤ negsuc n = if ltb n m then pos (m - n - 1) else negsuc (n - m)
negsuc m +ℤ pos n = if ltb m n then pos (n - m - 1) else negsuc (m - n)
negsuc m +ℤ negsuc n = negsuc (m + n + 1)
