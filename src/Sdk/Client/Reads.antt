-- ===== src/Sdk/Client/Reads.antt =====
-- The reads of sdk/src/client.ts that simulate a contract call, and a read through the cache.
-- `respond` is what the network does with attempt `n` of a simulation.
pub mod Votes
mod Tests
use package.text.Mathlib.Text.{◌==◌ as same_text}
use stellar_quorum.Base.{
  ℕ, zero, suc, String, Bool, true, false, Option, none, some, List, [], ◌∷◌, if◌then◌else◌,
  is_some,
}
use stellar_quorum.Base.Result.{Result, ok, err, ◌>>=◌, traverse}
use stellar_quorum.Base.Text.{◌<>◌}
use stellar_quorum.Sdk.Types.{
  QuorumClientConfig, GovernanceConfig, ReadMethod, ReadOptions, get_vote,
}
use stellar_quorum.Sdk.Errors.{Thrown, instance_of, error}
use stellar_quorum.Sdk.Cache.{
  ReadCache, Started, request_only, hit, reserved, start_read, settle_ok, settle_err,
}
use stellar_quorum.Sdk.Cache.Key.{Argument, bigint, text}
use stellar_quorum.Sdk.Client.Transport.{Response}
use stellar_quorum.Sdk.Client.Retry.{read}
use stellar_quorum.Sdk.Client.Transactions.{Native, address, u64, u32, require_token}

-- A response of `simulateTransaction`, its return value already native.
pub data Simulation (V : Type 0) : Type 0 where
  failed : String → Simulation V
  no_result : Simulation V
  returned : V → Simulation V

pub record ReadNetwork (Value V : Type 0) : Type 0 where
  pub encode : Native → Result Thrown Value
  pub respond : String → String → List Value → ℕ → Response (Simulation V)

abbrev pub simulation_error : String → String → Thrown
simulation_error method e = instance_of error ("Simulation of " <> method <> " failed: " <> e)

-- The tests of `request` behind the call.
unfoldable pub simulated : {V : Type 0} → String → Simulation V → Result Thrown V
simulated method (failed e) = err (simulation_error method e)
simulated method no_result =
    err (instance_of error ("Simulation of " <> method <> " returned no result"))
simulated method (returned v) = ok v

-- A token id that is configured and not empty.
abbrev pub configured : Option String → Option String
configured none = none
configured (some id) = if same_text id "" then none else some id

abbrev token_or : Option String → Result Thrown GovernanceConfig → Result Thrown String
token_or (some id) config = ok id
token_or none config = do c ← config; ok c.token

-- `tokenContract`: `config` is what `getConfig` gives, if it is asked.
unfoldable pub token_contract :
    QuorumClientConfig → Result Thrown GovernanceConfig → Result Thrown String
token_contract c config = token_or (configured c.token_contract_id) config

module _ {Value V : Type 0} (c : QuorumClientConfig) (net : ReadNetwork Value V)
    (draw : ℕ → ℕ) where
  -- `simulateOn`; `simulate` is this for the governance contract.
  unfoldable pub simulate_on : String → String → List Native → Result Thrown V
  simulate_on contract method arguments = do
    values ← traverse net.encode arguments
    simulation ← (read c ("simulate:" <> method) (net.respond contract method values) draw).result
    simulated method simulation

  -- `simulateToken`
  unfoldable pub simulate_token : String → List Native → Result Thrown V
  simulate_token method arguments = do
    contract ← require_token (configured c.token_contract_id)
    simulate_on contract method arguments

  unfoldable pub get_proposal_count_request : Result Thrown V
  get_proposal_count_request = simulate_on c.governance_contract_id "get_proposal_count" []

  unfoldable pub get_voting_power_request :
      Result Thrown GovernanceConfig → String → ℕ → Result Thrown V
  get_voting_power_request config voter ledger = do
    token ← token_contract c config
    simulate_on token "get_past_votes" (address voter ∷ u32 ledger ∷ [])

  unfoldable pub get_delegate : String → Result Thrown V
  get_delegate holder = simulate_on c.governance_contract_id "get_delegate" (address holder ∷ [])

  unfoldable pub get_balance_request : Result Thrown GovernanceConfig → String → Result Thrown V
  get_balance_request config voter = do
    token ← token_contract c config
    simulate_on token "balance" (address voter ∷ [])

  unfoldable pub get_token_decimals_request : Result Thrown GovernanceConfig → Result Thrown V
  get_token_decimals_request config = do
    token ← token_contract c config
    simulate_on token "decimals" []

  -- `None` of the contract is one of the values of `V`.
  unfoldable pub get_vote_request : ℕ → String → Result Thrown V
  get_vote_request id voter =
      simulate_on c.governance_contract_id "get_vote" (u64 id ∷ address voter ∷ [])

  unfoldable pub balance_request : String → Result Thrown V
  balance_request owner = simulate_token "balance" (address owner ∷ [])

  unfoldable pub get_past_balance_request : String → ℕ → Result Thrown V
  get_past_balance_request owner ledger =
      simulate_token "get_past_balance" (address owner ∷ u32 ledger ∷ [])

  unfoldable pub allowance_request : String → String → Result Thrown V
  allowance_request owner spender =
      simulate_token "allowance" (address owner ∷ address spender ∷ [])

  unfoldable pub total_supply_request : Result Thrown V
  total_supply_request = simulate_token "total_supply" []

-- What a read through the cache gives: `none` is `undefined`. `requests` counts the requests made.
pub record CachedRead (V : Type 0) : Type 0 where
  pub answer : Result Thrown (Option V)
  pub cache : ReadCache V
  pub requests : ℕ

module _ {V : Type 0} where
  abbrev answered : Result Thrown V → Result Thrown (Option V)
  answered (ok v) = ok (some v)
  answered (err e) = err e

  abbrev after_request : ℕ → String → ℕ → ℕ → Result Thrown V → ReadCache V → ReadCache V
  after_request now k token ttl (ok v) c = settle_ok now v k token ttl c
  after_request now k token ttl (err e) c = settle_err k token c

  abbrev pub finish : ℕ → Result Thrown V → Started V × ReadCache V → CachedRead V
  finish now request (request_only, c) = record {
    answer = answered request;
    cache = c;
    requests = 1;
  }
  finish now request (hit v, c) = record { answer = ok v; cache = c; requests = 0 }
  finish now request (reserved k token ttl, c) = record {
    answer = answered request;
    cache = after_request now k token ttl request c;
    requests = 1;
  }

  -- `ReadCache.read` with nothing between its two halves: the request gives `request`, at `now`.
  unfoldable pub read_through :
      (ℕ → ℕ)
      → ℕ
      → ReadMethod
      → List Argument
      → ReadOptions
      → Result Thrown V
      → ReadCache V
      → CachedRead V
  read_through clock now m arguments o request c =
      finish now request (start_read clock m arguments o c)

-- `getVote`: a recorded choice, or `none` for `null`.
unfoldable pub get_vote_through :
    (ℕ → ℕ)
    → ℕ
    → ℕ
    → String
    → ReadOptions
    → Result Thrown (Option ℕ)
    → ReadCache (Option ℕ)
    → CachedRead (Option ℕ)
get_vote_through clock now id voter o request c =
    read_through clock now get_vote (bigint id ∷ text voter ∷ []) o request c

-- `vote !== null`, where `undefined` is not `null`.
abbrev pub is_not_null : Result Thrown (Option (Option ℕ)) → Result Thrown Bool
is_not_null (err e) = err e
is_not_null (ok none) = ok true
is_not_null (ok (some v)) = ok (is_some v)

unfoldable pub has_voted :
    (ℕ → ℕ)
    → ℕ
    → ℕ
    → String
    → ReadOptions
    → Result Thrown (Option ℕ)
    → ReadCache (Option ℕ)
    → Result Thrown Bool
has_voted clock now id voter o request c =
    is_not_null (get_vote_through clock now id voter o request c).answer
