-- ===== src/Common/Int.antt =====
-- Signed integers: the values of `std::int64_t` and of three-way comparisons, and the casts between
-- a 64-bit word and the integer that it stands for.
use Prim.Native.Nat.{ℕ, ◌-◌, ◌%◌, ◌^◌, ◌<◌}
use mathlib.Core.Path.{◌≡◌}
use native.Mathlib.Omega.{arith}
use stoneleaf_db.Common.Tests.{ltb, if◌then◌else◌}

-- `negsuc n` is -(n + 1).
pub data ℤ : Type 0 where
  pos : ℕ → ℤ
  negsuc : ℕ → ℤ

-- -1, 0, 1: the order of `a` and `b`
abbrev pub sign_of : ℕ → ℕ → ℤ
sign_of a b = if ltb a b then negsuc 0 else if ltb b a then pos 1 else pos 0

abbrev pub IsI64 : ℤ → Type 0
IsI64 (pos n) = n < 2 ^ 63
IsI64 (negsuc n) = n < 2 ^ 63

-- The order of two integers as -1, 0, 1.
abbrev pub sign_ofℤ : ℤ → ℤ → ℤ
sign_ofℤ (pos a) (pos b) = sign_of a b
sign_ofℤ (pos a) (negsuc b) = pos 1
sign_ofℤ (negsuc a) (pos b) = negsuc 0
sign_ofℤ (negsuc a) (negsuc b) = sign_of b a

-- `static_cast<std::uint64_t>(value)`
unfoldable pub to_u64 : ℤ → ℕ
to_u64 (pos n) = n % 2 ^ 64
to_u64 (negsuc n) = 2 ^ 64 - 1 - n % 2 ^ 64

-- `std::bit_cast<std::int64_t>(raw)` and `static_cast<std::int64_t>(raw)`
unfoldable pub to_i64 : ℕ → ℤ
to_i64 w = if ltb w (2 ^ 63) then pos w else negsuc (2 ^ 64 - 1 - w)

pub to_u64-lt : (v : ℤ) → to_u64 v < 2 ^ 64
unfolding to_u64
to_u64-lt (pos n) = omega arith
to_u64-lt (negsuc n) = omega arith

-- A signed 64-bit value survives the cast to the unsigned type and back.
pub to_i64-to_u64 : (v : ℤ) → IsI64 v → to_i64 (to_u64 v) ≡ v
unfolding to_i64 to_u64
to_i64-to_u64 (pos n) h = ground arith
to_i64-to_u64 (negsuc n) h = ground arith
