-- ===== src/Base/Int.antt =====
-- Go's signed integers: `negsuc n` is -(n + 1). Only tests and the reading of a positive value are
-- used.
use Prim.Native.Nat.{ℕ, zero, suc}
use mathlib.Core.Bool.{Bool, true, false}
use mysmpp.Base.Tests.{leb}

pub data ℤ : Type 0 where
  pos : ℕ → ℤ
  negsuc : ℕ → ℤ

abbrev pub pos_part : ℤ → ℕ
pos_part (pos n) = n
pos_part (negsuc n) = 0

-- `a > 0`.
abbrev pub is_positive : ℤ → Bool
is_positive (pos zero) = false
is_positive (pos (suc n)) = true
is_positive (negsuc n) = false

-- `a <= b`.
abbrev pub lez : ℤ → ℤ → Bool
lez (pos a) (pos b) = leb a b
lez (pos a) (negsuc b) = false
lez (negsuc a) (pos b) = true
lez (negsuc a) (negsuc b) = leb b a

-- `if a <= 0 { a = d }`, for a value that is used as a length or a count.
abbrev pub positive_or : ℕ → ℤ → ℕ
positive_or d (pos zero) = d
positive_or d (pos (suc n)) = suc n
positive_or d (negsuc n) = d
