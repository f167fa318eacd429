-- ===== src/Base/Int.antt =====
-- Signed integers (`i32`, `i64`) over the native numbers: `negsuc n` is -(n + 1).
use Prim.Native.Nat.{ℕ, suc, ◌+◌, ◌-◌, ◌%◌, ◌^◌, ◌<◌, max}
use mathlib.Core.Bool.{Bool}
use rekindle.Base.Tests.{ltb, if◌then◌else◌}

pub data ℤ : Type 0 where
  pos : ℕ → ℤ
  negsuc : ℕ → ℤ

abbrev pub pos_part : ℤ → ℕ
pos_part (pos n) = n
pos_part (negsuc n) = 0

abbrev pub neg_part : ℤ → ℕ
neg_part (pos n) = 0
neg_part (negsuc n) = suc n

infix 50 ◌<ℤ◌
abbrev pub ◌<ℤ◌ : ℤ → ℤ → Type 0
a <ℤ b = pos_part a + neg_part b < pos_part b + neg_part a

abbrev pub ltb_ℤ : ℤ → ℤ → Bool
ltb_ℤ a b = ltb (pos_part a + neg_part b) (pos_part b + neg_part a)

-- `max` of the standard library: the second of two equal values, which no caller can tell apart.
abbrev pub max_ℤ : ℤ → ℤ → ℤ
max_ℤ a b = if ltb_ℤ b a then a else b

-- `x.saturating_sub(1).max(1)`
abbrev pub below_at_least_one : ℤ → ℤ
below_at_least_one (pos n) = pos (max (n - 1) 1)
below_at_least_one (negsuc n) = pos 1

-- `n as i64` of a `u64`; it wraps.
abbrev pub cast_signed : ℕ → ℤ
cast_signed n =
    let low = n % 2 ^ 64 in if ltb low (2 ^ 63) then pos low else negsuc (2 ^ 64 - 1 - low)
