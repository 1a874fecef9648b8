-- ===== src/Common/Int.antt =====
-- Signed numbers over the native naturals, and the casts between `u64` and `i64`.
use Prim.Native.Nat.{ℕ, ◌-◌, ◌^◌, ◌<◌}
use mathlib.Core.Path.{◌≡◌}
use native.Mathlib.Omega.{arith}
use pgnats.Common.Tests.{ltb, if◌then◌else◌}

-- `negsuc n` is -(n + 1).
pub data ℤ : Type 0 where
  pos : ℕ → ℤ
  negsuc : ℕ → ℤ

-- `v as i64` of a `u64`
abbrev pub as_i64 : ℕ → ℤ
as_i64 v = if ltb v (2 ^ 63) then pos v else negsuc (2 ^ 64 - 1 - v)

-- `x as u64` of an `i64`
abbrev pub as_u64 : ℤ → ℕ
as_u64 (pos n) = n
as_u64 (negsuc n) = 2 ^ 64 - 1 - n

abbrev pub IsI64 : ℤ → Type 0
IsI64 (pos n) = n < 2 ^ 63
IsI64 (negsuc n) = n < 2 ^ 63

pub as_u64-as_i64 : (v : ℕ) → v < 2 ^ 64 → as_u64 (as_i64 v) ≡ v
as_u64-as_i64 v h = ground arith

pub as_i64-as_u64 : (x : ℤ) → IsI64 x → as_i64 (as_u64 x) ≡ x
as_i64-as_u64 (pos n) h = ground arith
as_i64-as_u64 (negsuc n) h = ground arith

pub as_u64_lt : (x : ℤ) → IsI64 x → as_u64 x < 2 ^ 64
as_u64_lt (pos n) h = omega arith
as_u64_lt (negsuc n) h = omega arith
