-- ===== src/Common/Int.antt =====
-- Go's signed integers as mathematical integers; `negsuc n` is -(n + 1).
use Prim.Native.Nat.{ℕ, zero, suc, ◌+◌, ◌≤◌}
use mathlib.Core.Path.{◌≡◌, ap}
use mathlib.Core.Bool.{Bool, true, false}
use native.Mathlib.Omega.{arith}
use sf_operator.Common.Tests.{eqb, leb}

pub data ℤ : Type 0 where
  pos : ℕ → ℤ
  negsuc : ℕ → ℤ

abbrev pub pos_part : ℤ → ℕ
pos_part (pos n) = n
pos_part (negsuc n) = 0

abbrev pub neg_part : ℤ → ℕ
neg_part (pos n) = 0
neg_part (negsuc n) = suc n

infix 50 ◌≤ℤ◌ ◌<ℤ◌
abbrev pub ◌≤ℤ◌ : ℤ → ℤ → Type 0
a ≤ℤ b = pos_part a + neg_part b ≤ pos_part b + neg_part a

abbrev pub ◌<ℤ◌ : ℤ → ℤ → Type 0
a <ℤ b = suc (pos_part a + neg_part b) ≤ pos_part b + neg_part a

abbrev pub eq_int : ℤ → ℤ → Bool
eq_int (pos m) (pos n) = eqb m n
eq_int (negsuc m) (negsuc n) = eqb m n
eq_int (pos m) (negsuc n) = false
eq_int (negsuc m) (pos n) = false

-- a >= b
abbrev pub geq_int : ℤ → ℤ → Bool
geq_int (pos m) (pos n) = leb n m
geq_int (pos m) (negsuc n) = true
geq_int (negsuc m) (pos n) = false
geq_int (negsuc m) (negsuc n) = leb m n

-- a > 0
abbrev pub is_above_zero : ℤ → Bool
is_above_zero (pos zero) = false
is_above_zero (pos (suc n)) = true
is_above_zero (negsuc n) = false

pub eq_int_refl : (a : ℤ) → eq_int a a ≡ true
eq_int_refl (pos m) = ground arith
eq_int_refl (negsuc m) = ground arith

pub eq_int_eq : (a b : ℤ) → eq_int a b ≡ true → a ≡ b
eq_int_eq (pos m) (pos n) h = ap pos (ground arith)
eq_int_eq (negsuc m) (negsuc n) h = ap negsuc (ground arith)
eq_int_eq (pos m) (negsuc n) h = cc
eq_int_eq (negsuc m) (pos n) h = cc
