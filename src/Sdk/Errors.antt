-- ===== src/Sdk/Errors.antt =====
-- sdk/src/errors.ts, and the thrown values that the client tells apart.
-- `Codes` numbers the contracts' errors, `Parsing` proves what a host error is read as.
pub mod Codes
pub mod Parsing
mod Tests
use stellar_quorum.Base.{
  ℕ, String, ◌≡◌, Option, none, some, length, if◌then◌else◌, get_or, or_else, ◌==◌, List, is_some,
  Bool, ◌||◌, ◌&&◌,
}
use stellar_quorum.Base.Text.{◌<>◌, decimal, strip_prefix, read_number, includes_any, includes}
use stellar_quorum.Base.Number.{Number}
use stellar_quorum.Sdk.Types.{ProposalStatus}
use Codes.{GovernanceError, TokenError, governance_error_of, token_error_of}
use Prim.Native.String.{[], ◌∷◌}
use Prim.Native.Char.{code}

-- `error.code` of a thrown value: Node's word, or the number of a JSON-RPC error.
pub data ErrorCode : Type 0 where
  word : String → ErrorCode
  number : Number → ErrorCode

-- The class of a thrown value with its own fields. `plain` is no `Error`; it holds `String(error)`.
pub data ErrorClass : Type 0 where
  error rpc_timeout proposal_not_found voting_not_active proposal_not_passed : ErrorClass
  timelock_not_expired unauthorized : ErrorClass
  transaction_failed : String → Option ℕ → ErrorClass
  proposal_status_timeout : ℕ → ProposalStatus → ProposalStatus → ErrorClass
  plain : String → ErrorClass

pub record Thrown : Type 0 where
  pub class : ErrorClass
  pub message : Option String
  pub response_status : Option ℕ
  pub status : Option ℕ
  pub code : Option ErrorCode

-- An instance of a class of the program: a message, and nothing of a transport.
abbrev pub instance_of : ErrorClass → String → Thrown
instance_of c m = record {
  class = c;
  message = some m;
  response_status = none;
  status = none;
  code = none;
}

-- `new RpcTimeoutError(operation, timeoutMs)`
unfoldable pub rpc_timeout_error : String → ℕ → Thrown
rpc_timeout_error operation timeout_ms =
    instance_of rpc_timeout (operation <> " timed out after " <> decimal timeout_ms <> "ms")

-- `new TransactionFailedError(hash, message, contractErrorCode)`
unfoldable pub transaction_failed_error : String → String → Option ℕ → Thrown
transaction_failed_error hash message code = instance_of (transaction_failed hash code) message

-- `error instanceof Error ? error.message : String(error)`
unfoldable pub text_of : Thrown → String
text_of t = elim t.class [ plain s ↦ s | _ ↦ get_or t.message "" ]

abbrev pub opening : String
opening = "Error(Contract, #"

abbrev pub closed : Option (ℕ × String) → Option ℕ
closed none = none
closed (some (n, rest)) = if is_some (strip_prefix ")" rest) then some n else none

abbrev pub code_behind : Option String → Option ℕ
code_behind none = none
code_behind (some rest) = closed (read_number rest)

-- A match that begins at the head of the text.
unfoldable pub code_here : String → Option ℕ
code_here s = code_behind (strip_prefix opening s)

-- `/Error\(Contract, #(\d+)\)/.exec(text)`: the leftmost match.
unfoldable pub contract_error_code_in : String → Option ℕ
contract_error_code_in [] = none
contract_error_code_in (c ∷ cs) = or_else (code_here (c ∷ cs)) (contract_error_code_in cs)

unfoldable pub contract_error_code : Thrown → Option ℕ
contract_error_code t = contract_error_code_in (text_of t)

unfoldable pub parse_governance_error : Thrown → Option GovernanceError
parse_governance_error t = elim (contract_error_code t) [
  | none ↦ none
  | some n ↦ governance_error_of n
]

unfoldable pub parse_token_error : Thrown → Option TokenError
parse_token_error t = elim (contract_error_code t) [ none ↦ none | some n ↦ token_error_of n ]
