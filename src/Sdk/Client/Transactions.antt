-- ===== src/Sdk/Client/Transactions.antt =====
-- The `build*` methods of sdk/src/client.ts.
-- What the Stellar SDK and the RPC server do is a `Network`: a parameter of the builders.
pub mod Refusals
mod Tests
use stellar_quorum.Base.{
  ℕ, String, ◌+◌, ◌-◌, Option, none, some, List, [], ◌∷◌, get_or, if◌then◌else◌, Bool,
}
use stellar_quorum.Base.Result.{Result, ok, err, ◌>>=◌, map_err, traverse}
use stellar_quorum.Base.Text.{◌<>◌}
use stellar_quorum.Sdk.Types.{VoteSupport, against, for, abstain}
use stellar_quorum.Sdk.Errors.{Thrown, instance_of, error, text_of}
use stellar_quorum.Sdk.Client.SimulationErrors.{map_governance_simulation_error}

-- `new Address(s).toScVal()`, and `nativeToScVal` with each type that is asked for.
pub data Native : Type 0 where
  address : String → Native
  u64 u32 i128 : ℕ → Native
  string : String → Native

-- `encode` makes a contract value, `account` is `getAccount`, `build` the transaction of one call (a
-- fee of BASE_FEE, 30 seconds), `prepare` is `prepareTransaction` with `toXDR`.
pub record Network (Value Account Tx : Type 0) : Type 0 where
  pub encode : Native → Result Thrown Value
  pub account : String → Result Thrown Account
  pub build : Account → String → String → List Value → Tx
  pub prepare : Tx → Result Thrown String

abbrev pub support_number : VoteSupport → ℕ
support_number against = 0
support_number for = 1
support_number abstain = 2

abbrev token_required : Thrown
token_required = instance_of error "tokenContractId is not configured; cannot call token methods"

-- `requireToken`
abbrev pub require_token : Option String → Result Thrown String
require_token none = err token_required
require_token (some id) = ok id

-- The `catch` of `buildTokenTransaction`.
abbrev pub token_failure : String → Thrown → Thrown
token_failure method e = instance_of error ("Simulation of " <> method <> " failed: " <> text_of e)

module _ {Value Account Tx : Type 0} (net : Network Value Account Tx) (governance : String)
    (token : Option String) where
  unfoldable pub build_governance_transaction : String → String → List Value → Result Thrown String
  build_governance_transaction source method values = do
    account ← net.account source
    map_err (map_governance_simulation_error method)
        (net.prepare (net.build account governance method values))

  unfoldable pub build_token_transaction : String → String → List Value → Result Thrown String
  build_token_transaction source method values = do
    contract ← require_token token
    account ← net.account source
    map_err (token_failure method) (net.prepare (net.build account contract method values))

  -- The arguments are made before the call, in their order.
  unfoldable pub governance_call : String → String → List Native → Result Thrown String
  governance_call source method arguments = do
    values ← traverse net.encode arguments
    build_governance_transaction source method values

  unfoldable pub token_call : String → String → List Native → Result Thrown String
  token_call source method arguments = do
    values ← traverse net.encode arguments
    build_token_transaction source method values

  unfoldable pub build_create_proposal :
      String → String → String → Option String → Result Thrown String
  build_create_proposal proposer title description source =
      governance_call (get_or source proposer) "create_proposal"
        (address proposer ∷ string title ∷ string description ∷ [])

  unfoldable pub build_vote : String → ℕ → VoteSupport → Option String → Result Thrown String
  build_vote voter id support source =
      governance_call (get_or source voter) "vote"
        (address voter ∷ u64 id ∷ u32 (support_number support) ∷ [])

  unfoldable pub build_delegate : String → String → Option String → Result Thrown String
  build_delegate delegator delegatee source =
      governance_call (get_or source delegator) "delegate"
        (address delegator ∷ address delegatee ∷ [])

  unfoldable pub build_undelegate : String → Option String → Result Thrown String
  build_undelegate delegator source =
      governance_call (get_or source delegator) "undelegate" (address delegator ∷ [])

  unfoldable pub build_finalize : String → ℕ → Result Thrown String
  build_finalize source id = governance_call source "finalize" (u64 id ∷ [])

  unfoldable pub build_execute : String → ℕ → Result Thrown String
  build_execute source id = governance_call source "execute" (address source ∷ u64 id ∷ [])

  unfoldable pub build_cancel : String → ℕ → Option String → Result Thrown String
  build_cancel caller id source =
      governance_call (get_or source caller) "cancel" (address caller ∷ u64 id ∷ [])

  unfoldable pub build_transfer : String → String → ℕ → Option String → Result Thrown String
  build_transfer source_of to amount source =
      token_call (get_or source source_of) "transfer"
        (address source_of ∷ address to ∷ i128 amount ∷ [])

  unfoldable pub build_approve : String → String → ℕ → ℕ → Option String → Result Thrown String
  build_approve owner spender amount expiration source =
      token_call (get_or source owner) "approve"
        (address owner ∷ address spender ∷ i128 amount ∷ u32 expiration ∷ [])

  unfoldable pub build_transfer_from :
      String → String → String → ℕ → Option String → Result Thrown String
  build_transfer_from spender source_of to amount source =
      token_call (get_or source spender) "transfer_from"
        (address spender ∷ address source_of ∷ address to ∷ i128 amount ∷ [])
