-- ===== src/Sdk/Cache/Key.antt =====
-- `ReadCache.key` of sdk/src/cache.ts: the method's name, and its arguments as JSON.
use Prim.Native.Char.{Char, code}
use Prim.Native.String.{[], ◌∷◌}
use mathlib.Core.List as L
use stellar_quorum.Base.{ℕ, String, List, ◌==◌, if◌then◌else◌, ltb, ◌/◌, ◌%◌}
use stellar_quorum.Base.Text.{◌<>◌, decimal}
use stellar_quorum.Sdk.Types.{
  ReadMethod, get_proposal, get_proposal_count, get_config, get_vote, get_latest_ledger,
  get_voting_power, get_balance, get_token_decimals, balance, get_past_balance, allowance,
  total_supply,
}

-- The arguments that the client's reads are cached under.
pub data Argument : Type 0 where
  bigint number : ℕ → Argument
  text : String → Argument

unfoldable pub method_name : ReadMethod → String
method_name get_proposal = "getProposal"
method_name get_proposal_count = "getProposalCount"
method_name get_config = "getConfig"
method_name get_vote = "getVote"
method_name get_latest_ledger = "getLatestLedger"
method_name get_voting_power = "getVotingPower"
method_name get_balance = "getBalance"
method_name get_token_decimals = "getTokenDecimals"
method_name balance = "balance"
method_name get_past_balance = "getPastBalance"
method_name allowance = "allowance"
method_name total_supply = "totalSupply"

-- The members of `ReadMethod` in order, to compare them.
abbrev pub method_index : ReadMethod → ℕ
method_index get_proposal = 0
method_index get_proposal_count = 1
method_index get_config = 2
method_index get_vote = 3
method_index get_latest_ledger = 4
method_index get_voting_power = 5
method_index get_balance = 6
method_index get_token_decimals = 7
method_index balance = 8
method_index get_past_balance = 9
method_index allowance = 10
method_index total_supply = 11

hex_digit : ℕ → String
unfolding decimal
hex_digit n =
    if ltb n 10
    then decimal n
    else if n == 10
    then "a"
    else if n == 11
    then "b"
    else if n == 12
    then "c"
    else if n == 13
    then "d"
    else if n == 14
    then "e"
    else "f"

-- How JSON writes a character inside a string.
json_char : Char → String
unfolding hex_digit
json_char c =
    let n = code c in
    if n == 34
    then "\\\""
    else if n == 92
    then "\\\\"
    else if n == 8
    then "\\b"
    else if n == 9
    then "\\t"
    else if n == 10
    then "\\n"
    else if n == 12
    then "\\f"
    else if n == 13
    then "\\r"
    else if ltb n 32
    then "\\u00" <> hex_digit (n / 16) <> hex_digit (n % 16)
    else c ∷ []

json_chars : String → String
unfolding json_char
json_chars [] = []
json_chars (c ∷ s) = json_char c <> json_chars s

unfoldable pub json_text : String → String
unfolding json_chars
json_text s = "\"" <> json_chars s <> "\""

-- The replacer turns a bigint into `{ bigint: String(value) }`.
unfoldable pub json_argument : Argument → String
unfolding json_text decimal
json_argument (bigint n) = "{\"bigint\":\"" <> decimal n <> "\"}"
json_argument (number n) = decimal n
json_argument (text s) = json_text s

unfoldable pub json_items : List Argument → String
json_items L.[] = "]"
json_items (L.◌∷◌ a more) = "," <> json_argument a <> json_items more

-- `JSON.stringify(args, replacer)`
unfoldable pub json_array : List Argument → String
unfolding json_items json_argument
json_array L.[] = "[]"
json_array (L.◌∷◌ a more) = "[" <> json_argument a <> json_items more

unfoldable pub method_prefix : ReadMethod → String
method_prefix m = method_name m <> ":"

unfoldable pub key : ReadMethod → List Argument → String
key m arguments = method_name m <> ":" <> json_array arguments
