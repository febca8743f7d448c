-- ===== src/Base/Double.antt =====
-- `Number(n)` of a bigint that is not negative: the nearest double, as a whole number. A double has 53
-- bits; a bigint of the contracts has at most 127, so the exponent has no part in it.
use Prim.Native.Nat.{ℕ, zero, suc, ◌+◌, ◌*◌, ◌/◌, ◌%◌, ◌<◌}
use mathlib.Core.Path.{◌≡◌}
use native.Mathlib.Omega.{arith}
use stellar_quorum.Base.Tests.{ltb, ◌==◌, if◌then◌else◌}

-- What the last of the 53 bits counts for: the first power of two, from `unit` on, that leaves no more
-- bits. As many rounds as `n` are enough.
unfoldable pub unit_of : ℕ → ℕ → ℕ → ℕ
unit_of zero n unit = unit
unit_of (suc rounds) n unit =
    let wider = unit_of rounds n (unit * 2) in
    if ltb n (9007199254740992 * unit) then unit else wider

-- To the nearest multiple of the unit, and between two to the even one.
unfoldable pub rounded : ℕ → ℕ → ℕ
rounded unit n =
    let q = n / unit in
    let r = n % unit in
    if ltb (r * 2) unit
    then q * unit
    else if ltb unit (r * 2)
    then (q + 1) * unit
    else if q % 2 == 0
    then q * unit
    else (q + 1) * unit

unfoldable pub number_of : ℕ → ℕ
unfolding unit_of rounded
number_of n = rounded (unit_of n n 1) n

pub number_of_exact : (n : ℕ) → n < 9007199254740992 → number_of n ≡ n
unfolding number_of
number_of_exact zero h = omega arith
number_of_exact (suc n) h = ground arith
