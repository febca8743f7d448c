-- ===== src/Base/Number.antt =====
-- JavaScript numbers, as far as the guards of the program tell them apart.
use Prim.Native.Nat.{ℕ, suc}
use Prim.Native.String.{String}
use mathlib.Core.Bool.{Bool, true, false}
use stellar_quorum.Base.Text.{decimal}

-- `fraction k s` lies strictly between k and k + 1, `negative s` below zero (-Infinity included);
-- `s` is how the number prints.
pub data Number : Type 0 where
  nat : ℕ → Number
  fraction : ℕ → String → Number
  negative : String → Number
  infinity : Number
  nan : Number

-- `String(n)`
unfoldable pub print : Number → String
unfolding decimal
print (nat n) = decimal n
print (fraction k s) = s
print (negative s) = s
print infinity = "Infinity"
print nan = "NaN"

-- `Number.isInteger(n) && n >= 0`: a negative number is refused either way.
abbrev pub is_whole : Number → Bool
is_whole (nat n) = true
is_whole _ = false

-- `Number.isFinite(n) && n >= 0`
abbrev pub is_finite_nonneg : Number → Bool
is_finite_nonneg (nat n) = true
is_finite_nonneg (fraction k s) = true
is_finite_nonneg _ = false

-- The least whole number that is not below `n`. A clock that counts whole milliseconds is past
-- `t + n` exactly when it is past `t + ceiling n`. The kinds that the guards refuse give 0.
abbrev pub ceiling : Number → ℕ
ceiling (nat n) = n
ceiling (fraction k s) = suc k
ceiling _ = 0
