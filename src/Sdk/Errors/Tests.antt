-- ===== src/Sdk/Errors/Tests.antt =====
-- Runs of sdk/src/errors.ts at fixed inputs, and the properties at inputs that meet their premises.
use stellar_quorum.Base.{◌≡◌, refl, some, none}
use stellar_quorum.Base.Text.{read_number, strip_prefix, includes, decimal}
use stellar_quorum.Sdk.Errors.{
  contract_error_code_in, code_here, Thrown, instance_of, error, text_of, parse_governance_error,
}
use stellar_quorum.Sdk.Errors.Codes.{GovernanceError, TokenError, governance_code, token_code}
use stellar_quorum.Sdk.Errors.Parsing.{IsHostError, parse_governance_error-governance_code}

code_runs :
    (contract_error_code_in "HostError: Error(Contract, #12) at" ≡ some 12)
    × (contract_error_code_in "Error(Contract, #x) Error(Contract, #3)" ≡ some 3)
    × (contract_error_code_in "Error(Contract, #31" ≡ none)
unfolding contract_error_code_in code_here read_number strip_prefix
code_runs = (refl, refl, refl)

abbrev timelock : Thrown
timelock = instance_of error "HostError: Error(Contract, #12) at 7"

timelock-IsHostError : IsHostError timelock (governance_code GovernanceError.timelock_not_expired)
unfolding text_of includes decimal governance_code
timelock-IsHostError = record { pre = "HostError: "; post = " at 7"; first = refl; reads = refl }

parse_governance_error-governance_code_example :
    parse_governance_error timelock ≡ some GovernanceError.timelock_not_expired
parse_governance_error-governance_code_example =
    parse_governance_error-governance_code timelock GovernanceError.timelock_not_expired
      timelock-IsHostError

abbrev broke : Thrown
broke = instance_of error "Error(Contract, #3)"

broke-IsHostError : IsHostError broke (token_code TokenError.insufficient_balance)
unfolding text_of includes decimal token_code
broke-IsHostError = record { pre = ""; post = ""; first = refl; reads = refl }

-- `ActionFailed` of contracts/governance/src/lib.rs
abbrev action_failed : Thrown
action_failed = instance_of error "Error(Contract, #36)"

action_failed-IsHostError : IsHostError action_failed 36
unfolding text_of includes decimal
action_failed-IsHostError = record { pre = ""; post = ""; first = refl; reads = refl }
