-- ===== src/Base/Words.antt =====
-- Casts between machine integers. A signed integer is a `ℤ` in the range of its type, and an
-- unsigned one a number below 2 ^ w.
use rustqlite.Base.Tests.{ltb, if◌then◌else◌}
use rustqlite.Base.Int.{ℤ, pos, negsuc}
use Prim.Native.Nat.{ℕ, ◌-◌, ◌%◌, ◌^◌, ◌<◌}
use mathlib.Core.Path.{◌≡◌}
use native.Mathlib.Omega.{arith}

-- `i as u64` of an `i64`: the bit pattern.
unfoldable pub as_u64 : ℤ → ℕ
as_u64 (pos n) = n % 2 ^ 64
as_u64 (negsuc n) = 2 ^ 64 - 1 - n % 2 ^ 64

-- `v as i64` of a `u64`.
unfoldable pub as_i64 : ℕ → ℤ
as_i64 v = if ltb v (2 ^ 63) then pos v else negsuc (2 ^ 64 - 1 - v)

unfoldable pub as_i32 : ℕ → ℤ
as_i32 v = if ltb v (2 ^ 31) then pos v else negsuc (2 ^ 32 - 1 - v)

unfoldable pub i32_as_u32 : ℤ → ℕ
i32_as_u32 (pos n) = n % 2 ^ 32
i32_as_u32 (negsuc n) = 2 ^ 32 - 1 - n % 2 ^ 32

-- The range of the type.
abbrev pub IsI64 : ℤ → Type 0
IsI64 (pos n) = n < 2 ^ 63
IsI64 (negsuc n) = n < 2 ^ 63

abbrev pub IsI32 : ℤ → Type 0
IsI32 (pos n) = n < 2 ^ 31
IsI32 (negsuc n) = n < 2 ^ 31

pub as_i64-as_u64 : (i : ℤ) → IsI64 i → as_i64 (as_u64 i) ≡ i
unfolding as_i64 as_u64
as_i64-as_u64 (pos n) h = ground arith
as_i64-as_u64 (negsuc n) h = ground arith

pub as_u64-lt : (i : ℤ) → as_u64 i < 2 ^ 64
unfolding as_u64
as_u64-lt (pos n) = omega arith
as_u64-lt (negsuc n) = omega arith

pub as_u64-as_i64 : (v : ℕ) → v < 2 ^ 64 → as_u64 (as_i64 v) ≡ v
unfolding as_i64 as_u64
as_u64-as_i64 v h = ground arith

pub as_i32-as_u32 : (i : ℤ) → IsI32 i → as_i32 (i32_as_u32 i) ≡ i
unfolding as_i32 i32_as_u32
as_i32-as_u32 (pos n) h = ground arith
as_i32-as_u32 (negsuc n) h = ground arith
