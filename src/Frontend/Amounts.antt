-- ===== src/Frontend/Amounts.antt =====
-- frontend/lib/voting-power.ts: voting power, and token amounts as text; with `formatNumber` of
-- lib/i18n.ts, whose one locale is English. An amount is a bigint that is not negative.
pub mod Fractions
mod Tests
use text.Mathlib.Text.{◌==◌ as same_text}
use Prim.Native.Char.{code}
use Prim.Native.String.{[], ◌∷◌}
use stellar_quorum.Base.{
  ℕ, zero, suc, ◌+◌, ◌-◌, ◌*◌, ◌/◌, ◌%◌, ◌^◌, String, Bool, ◌&&◌, ltb, leb, ◌==◌, if◌then◌else◌,
}
use stellar_quorum.Base.Result.{Result, ok, err, ◌>>=◌}
use stellar_quorum.Base.Text.{◌<>◌, decimal}
use stellar_quorum.Sdk.Errors.{Thrown}
use stellar_quorum.Frontend.Env.{first_chars}
use stellar_quorum.Frontend.Env.Strkey.{text_length}

pub record VotingPower : Type 0 where
  pub snapshot : ℕ
  pub current : ℕ
  pub decimals : ℕ

abbrev pub token_decimals : ℕ
token_decimals = 7

-- The last `n` characters of a text, all of a shorter one.
abbrev pub last_chars : ℕ → String → String
last_chars n [] = []
last_chars n (c ∷ cs) = if leb (text_length (c ∷ cs)) n then c ∷ cs else last_chars n cs

-- `FIXTURE_BALANCES`
abbrev fixture_power : String → VotingPower
fixture_power tail =
    if same_text tail "3XZK"
    then record { snapshot = 25000000000; current = 40000000000; decimals = token_decimals }
    else if same_text tail "7MKL"
    then record { snapshot = 1500000000000; current = 1500000000000; decimals = token_decimals }
    else record { snapshot = 0; current = 0; decimals = token_decimals }

-- What the client of the SDK answers for the address.
pub record PowerReads : Type 0 where
  pub voting_power : ℕ → Result Thrown ℕ
  pub balance : Result Thrown ℕ
  pub decimals : Result Thrown ℕ

-- `.catch(() => TOKEN_DECIMALS)`
abbrev or_default : Result Thrown ℕ → ℕ
or_default (ok d) = d
or_default (err e) = token_decimals

unfoldable pub get_voting_power :
    Bool → Result Thrown PowerReads → String → ℕ → Result Thrown VotingPower
get_voting_power use_fixture client address snapshot_ledger =
    if use_fixture then ok (fixture_power (last_chars 4 address)) else do
      reads ← client
      snapshot ← reads.voting_power snapshot_ledger
      current ← reads.balance
      ok (record { snapshot = snapshot; current = current; decimals = or_default reads.decimals })

unfoldable pub units_of : ℕ → ℕ → ℕ
units_of amount decimals = amount * 10 ^ decimals

abbrev pub zeros : ℕ → String → String
zeros zero s = s
zeros (suc n) s = "0" <> zeros n s

-- `s.padStart(n, "0")`
abbrev pub pad_start : ℕ → String → String
pad_start n s = zeros (n - text_length s) s

-- The groups of three digits behind the first; as many rounds as `n` are enough.
unfoldable pub grouped : ℕ → ℕ → String
grouped zero n = decimal n
grouped (suc rounds) n =
    let front = grouped rounds (n / 1000) <> "," <> pad_start 3 (decimal (n % 1000)) in
    if ltb n 1000 then decimal n else front

-- `new Intl.NumberFormat("en").format(n)` of a whole number
unfoldable pub format_number : ℕ → String
unfolding grouped decimal
format_number n = grouped n n

unfoldable pub format_ledger : ℕ → String
format_ledger ledger = format_number ledger

-- `s.replace(/0+$/, "")`
unfoldable pub strip_zeros : String → String
strip_zeros [] = []
strip_zeros (c ∷ cs) =
    let rest = strip_zeros cs in if code c == 48 && same_text rest "" then [] else c ∷ rest

-- At most four digits of the fraction.
unfoldable pub trimmed : ℕ → ℕ → String
unfolding strip_zeros decimal
trimmed decimals fraction = first_chars 4 (strip_zeros (pad_start decimals (decimal fraction)))

unfoldable pub format_token_amount : ℕ → ℕ → String
unfolding trimmed format_number
format_token_amount units decimals =
    let scale = 10 ^ decimals in
    let whole = format_number (units / scale) in
    if units % scale == 0 then whole else whole <> "." <> trimmed decimals (units % scale)
