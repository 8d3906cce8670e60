-- ===== src/Prelude/Integers.antt =====
-- Integers over the native numbers, and the casts of Rust.
use Prim.Native.Nat.{ℕ, ◌-◌, ◌^◌, max, min}
use ensurer_v.Prelude.Tests.{ltb, if◌then◌else◌}

-- `negsuc n` is minus n and one more.
pub data ℤ : Type 0 where
  pos negsuc : ℕ → ℤ

-- `as i32` of a `u32`.
unfoldable pub as_i32 : ℕ → ℤ
as_i32 n = if ltb n (2 ^ 31) then pos n else negsuc (2 ^ 32 - 1 - n)

-- `clamp(low, high) as u32`, for bounds that are not negative.
unfoldable pub clamp_u32 : ℕ → ℕ → ℤ → ℕ
clamp_u32 low high (negsuc n) = low
clamp_u32 low high (pos n) = min (max n low) high
