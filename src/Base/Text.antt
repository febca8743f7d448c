-- ===== src/Base/Text.antt =====
-- JavaScript strings as the program uses them: prefixes, substring tests, lower case, decimals.
-- A string is a list of Unicode characters; every pattern of the source is ASCII, and only ASCII
-- letters change case here.
pub mod Decimal
pub mod Replace
use Prim.Native.Nat.{ℕ, zero, suc, ◌+◌, ◌-◌, ◌*◌, ◌/◌, ◌%◌}
use Prim.Native.Char.{Char, code}
use Prim.Native.String
use Prim.Native.String.{String, [], ◌∷◌}
use mathlib.Core.Bool.{Bool, false, ◌&&◌, ◌||◌}
use mathlib.Core.Option.{Option, none, some}
use mathlib.Core.List as L
use mathlib.Core.List.{List}
use stellar_quorum.Base.Tests.{ltb, leb, ◌==◌, if◌then◌else◌, is_some}

infixr 65 ◌<>◌
-- `s + t`, and the pieces of a template literal
abbrev pub ◌<>◌ : String → String → String
s <> t = String.◌++◌ s t

abbrev same : ℕ → ℕ
same c = c

-- ASCII upper case to lower case
abbrev pub fold : ℕ → ℕ
fold c = if leb 65 c && leb c 90 then c + 32 else c

-- The rest of the text behind the prefix, characters compared after `f`.
unfoldable pub strip_by : (ℕ → ℕ) → String → String → Option String
strip_by f [] s = some s
strip_by f (p ∷ ps) [] = none
strip_by f (p ∷ ps) (c ∷ cs) = if f (code p) == f (code c) then strip_by f ps cs else none

unfoldable pub strip_prefix : String → String → Option String
unfolding strip_by
strip_prefix p s = strip_by same p s

-- `s.startsWith(p)`
unfoldable pub has_prefix : String → String → Bool
unfolding strip_prefix
has_prefix p s = is_some (strip_prefix p s)

unfoldable pub includes_by : (ℕ → ℕ) → String → String → Bool
unfolding strip_by
includes_by f p [] = is_some (strip_by f p [])
includes_by f p (c ∷ cs) = is_some (strip_by f p (c ∷ cs)) || includes_by f p cs

-- `s.includes(p)`, and a regular expression that is a plain word
unfoldable pub includes : String → String → Bool
unfolding includes_by
includes p s = includes_by same p s

-- `/p/i.test(s)` for a plain word `p`
unfoldable pub includes_ci : String → String → Bool
unfolding includes_by
includes_ci p s = includes_by fold p s

-- `/p|q|…/i.test(s)`
unfoldable pub includes_any : List String → String → Bool
unfolding includes_ci
includes_any L.[] s = false
includes_any (L.◌∷◌ p ps) s = includes_ci p s || includes_any ps s

abbrev pub is_digit : Char → Bool
is_digit c = leb 48 (code c) && leb (code c) 57

-- `\w`
abbrev pub is_word : Char → Bool
is_word c =
    is_digit c
    || leb 65 (code c) && leb (code c) 90
    || leb 97 (code c) && leb (code c) 122
    || code c == 95

-- The longest run of digits at the head, read on from `n`, and what follows it.
unfoldable pub digits_from : ℕ → String → ℕ × String
digits_from n [] = (n, [])
digits_from n (c ∷ cs) =
    let rest = digits_from (n * 10 + (code c - 48)) cs in if is_digit c then rest else (n, c ∷ cs)

-- `/^(\d+)/`: at least one digit.
unfoldable pub read_number : String → Option (ℕ × String)
unfolding digits_from
read_number [] = none
read_number (c ∷ cs) = if is_digit c then some (digits_from 0 (c ∷ cs)) else none

abbrev pub digit : ℕ → Char
digit zero = "0"
digit (suc zero) = "1"
digit (suc (suc zero)) = "2"
digit (suc (suc (suc zero))) = "3"
digit (suc (suc (suc (suc zero)))) = "4"
digit (suc (suc (suc (suc (suc zero))))) = "5"
digit (suc (suc (suc (suc (suc (suc zero)))))) = "6"
digit (suc (suc (suc (suc (suc (suc (suc zero))))))) = "7"
digit (suc (suc (suc (suc (suc (suc (suc (suc zero)))))))) = "8"
digit _ = "9"

-- The digits of `n` in front of a text; as many rounds as `n` are always enough.
unfoldable pub decimal_onto : ℕ → ℕ → String → String
decimal_onto zero n s = digit (n % 10) ∷ s
decimal_onto (suc rounds) n s =
    let s' = digit (n % 10) ∷ s in
    let rest = decimal_onto rounds (n / 10) s' in if ltb n 10 then s' else rest

-- `String(n)` of a whole number
unfoldable pub decimal : ℕ → String
unfolding decimal_onto
decimal n = decimal_onto n n []
