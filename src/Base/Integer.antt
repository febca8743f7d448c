-- ===== src/Base/Integer.antt =====
-- A `bigint` that can fall below zero; `negsuc n` is -(n + 1).
use Prim.Native.Nat.{ℕ, ◌+◌, ◌-◌}
use mathlib.Core.Path.{◌≡◌}
use native.Mathlib.Omega.{arith}
use stellar_quorum.Base.Tests.{ltb, if◌then◌else◌}

pub data ℤ : Type 0 where
  negsuc : ℕ → ℤ
  pos : ℕ → ℤ

-- The difference of two numbers.
abbrev pub minus : ℕ → ℕ → ℤ
minus m n = if ltb m n then negsuc (n - m - 1) else pos (m - n)

infixl 65 ◌+ℤ◌
unfoldable pub ◌+ℤ◌ : ℤ → ℤ → ℤ
negsuc m +ℤ negsuc n = negsuc (m + n + 1)
negsuc m +ℤ pos n = minus n (m + 1)
pos m +ℤ negsuc n = minus m (n + 1)
pos m +ℤ pos n = pos (m + n)

pub minus-cancel : (m n : ℕ) → minus m n +ℤ pos n ≡ pos m
unfolding ◌+ℤ◌
minus-cancel m n = ground arith

pub minus-raise : (m n k : ℕ) → minus m n +ℤ pos k +ℤ pos n ≡ pos (m + k)
unfolding ◌+ℤ◌
minus-raise m n k = ground arith
