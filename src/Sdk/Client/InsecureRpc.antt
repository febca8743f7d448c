-- ===== src/Sdk/Client/InsecureRpc.antt =====
-- `allowsInsecureRpc` of sdk/src/client.ts. The host name is what the URL parser gives, if it accepts
-- the URL.
pub mod Loopback
mod Tests
use text.Mathlib.Text.{◌==◌ as same_text}
use Prim.Native.Char.{Char, code}
use Prim.Native.String.{[], ◌∷◌}
use stellar_quorum.Base.{
  ℕ, zero, suc, ◌+◌, String, Bool, true, false, ◌&&◌, ◌||◌, Option, none, some, if◌then◌else◌, leb,
}
use stellar_quorum.Base.Text.{strip_prefix, is_digit}

-- Up to `n` digits more, and then what `rest` accepts.
unfoldable pub digits_then : (String → Bool) → ℕ → String → Bool
digits_then rest zero s = rest s
digits_then rest (suc n) [] = rest []
digits_then rest (suc n) (c ∷ cs) =
    let later = digits_then rest n cs in rest (c ∷ cs) || is_digit c && later

abbrev pub first_digit : (String → Bool) → Option String → Bool
first_digit rest none = false
first_digit rest (some []) = false
first_digit rest (some (c ∷ cs)) = is_digit c && digits_then rest 2 cs

-- `/^(\.\d{1,3}){n}$/`
unfoldable pub octets : ℕ → String → Bool
octets zero [] = true
octets zero (c ∷ cs) = false
octets (suc n) s = first_digit (octets n) (strip_prefix "." s)

abbrev pub behind_127 : Option String → Bool
behind_127 none = false
behind_127 (some rest) = octets 3 rest

-- `hostname` in lower case.
abbrev pub is_loopback : String → Bool
is_loopback host =
    same_text host "localhost"
    || same_text host "::1"
    || same_text host "[::1]"
    || behind_127 (strip_prefix "127" host)

-- `lower` is `toLowerCase`.
unfoldable pub allows_insecure_rpc : (String → String) → Option String → Bool
allows_insecure_rpc lower none = false
allows_insecure_rpc lower (some host) = is_loopback (lower host)
