-- ===== src/Sdk/Client/SimulationErrors/Marks.antt =====
-- The mark `#N)` of each error of the governance contract, and what the tests of
-- `mapGovernanceSimulationError` in sdk/src/client.ts make of it.

use stellar_quorum.Base.{ℕ, String, ◌≡◌, refl, Bool, ◌||◌, ◌==◌, if◌then◌else◌}
use stellar_quorum.Base.Text.{◌<>◌, decimal, decimal_onto, strip_prefix, strip_by}
use stellar_quorum.Base.Text.Replace.{onto}
use stellar_quorum.Sdk.Errors.Codes.{GovernanceError, governance_code}
use stellar_quorum.Sdk.Errors.{
  ErrorClass, error, proposal_not_found, voting_not_active, proposal_not_passed,
  timelock_not_expired, unauthorized,
}
use stellar_quorum.Sdk.Client.SimulationErrors.{has_marker, number_ahead}

-- The class of the program that bears the name of the contract's error, and `Error` where there is
-- none.
abbrev pub class_named : GovernanceError → ErrorClass
class_named GovernanceError.proposal_not_found = proposal_not_found
class_named GovernanceError.voting_not_active = voting_not_active
class_named GovernanceError.proposal_not_passed = proposal_not_passed
class_named GovernanceError.timelock_not_expired = timelock_not_expired
class_named GovernanceError.unauthorized = unauthorized
class_named _ = error

abbrev pub code_mark : GovernanceError → String
code_mark e = "#" <> decimal (governance_code e) <> ")"

abbrev pub class_by : Bool → Bool → Bool → Bool → Bool → ErrorClass
class_by b3 b4 b7 b12 b2 =
    if b3
    then proposal_not_found
    else if b4
    then voting_not_active
    else if b7
    then proposal_not_passed
    else if b12
    then timelock_not_expired
    else if b2
    then unauthorized
    else error

abbrev pub is_code : GovernanceError → ℕ → Bool
is_code e n = governance_code e == n

-- The number `n` stands in the mark of `e` if it is its code, and is looked for behind it too.
abbrev pub AtMark : GovernanceError → String → ℕ → String → Type 0
AtMark e number n t = has_marker number (onto (code_mark e) t) ≡ is_code e n || has_marker number t

-- The five numbers at the mark of an error, and the class that they choose.
abbrev pub AtCode : GovernanceError → Type 0
AtCode e =
    ((t : String)
      → AtMark e "3" 3 t
        × AtMark e "4" 4 t
        × AtMark e "7" 7 t
        × AtMark e "12" 12 t
        × AtMark e "2" 2 t)
    × (class_by (is_code e 3) (is_code e 4) (is_code e 7) (is_code e 12) (is_code e 2)
        ≡ class_named e)

pub at_code : (e : GovernanceError) → AtCode e
unfolding has_marker number_ahead decimal decimal_onto strip_prefix strip_by governance_code
at_code GovernanceError.already_initialized = (λ t. (refl, refl, refl, refl, refl), refl)
at_code GovernanceError.unauthorized = (λ t. (refl, refl, refl, refl, refl), refl)
at_code GovernanceError.proposal_not_found = (λ t. (refl, refl, refl, refl, refl), refl)
at_code GovernanceError.voting_not_active = (λ t. (refl, refl, refl, refl, refl), refl)
at_code GovernanceError.already_voted = (λ t. (refl, refl, refl, refl, refl), refl)
at_code GovernanceError.quorum_not_reached = (λ t. (refl, refl, refl, refl, refl), refl)
at_code GovernanceError.proposal_not_passed = (λ t. (refl, refl, refl, refl, refl), refl)
at_code GovernanceError.already_executed = (λ t. (refl, refl, refl, refl, refl), refl)
at_code GovernanceError.below_proposal_threshold = (λ t. (refl, refl, refl, refl, refl), refl)
at_code GovernanceError.invalid_vote_choice = (λ t. (refl, refl, refl, refl, refl), refl)
at_code GovernanceError.voting_period_ended = (λ t. (refl, refl, refl, refl, refl), refl)
at_code GovernanceError.timelock_not_expired = (λ t. (refl, refl, refl, refl, refl), refl)
at_code GovernanceError.overflow = (λ t. (refl, refl, refl, refl, refl), refl)
at_code GovernanceError.no_voting_power = (λ t. (refl, refl, refl, refl, refl), refl)
at_code GovernanceError.execution_expired = (λ t. (refl, refl, refl, refl, refl), refl)
at_code GovernanceError.contract_paused = (λ t. (refl, refl, refl, refl, refl), refl)
at_code GovernanceError.invalid_quorum_bps = (λ t. (refl, refl, refl, refl, refl), refl)
at_code GovernanceError.not_initialized = (λ t. (refl, refl, refl, refl, refl), refl)
at_code GovernanceError.empty_title = (λ t. (refl, refl, refl, refl, refl), refl)
at_code GovernanceError.title_too_long = (λ t. (refl, refl, refl, refl, refl), refl)
at_code GovernanceError.description_too_long = (λ t. (refl, refl, refl, refl, refl), refl)
at_code GovernanceError.minimum_quorum_required = (λ t. (refl, refl, refl, refl, refl), refl)
at_code GovernanceError.minimum_timelock_required = (λ t. (refl, refl, refl, refl, refl), refl)
at_code GovernanceError.empty_veto_reason = (λ t. (refl, refl, refl, refl, refl), refl)
at_code GovernanceError.veto_reason_too_long = (λ t. (refl, refl, refl, refl, refl), refl)
at_code GovernanceError.veto_window_closed = (λ t. (refl, refl, refl, refl, refl), refl)
at_code GovernanceError.target_not_allowed = (λ t. (refl, refl, refl, refl, refl), refl)
at_code GovernanceError.invalid_cosponsors = (λ t. (refl, refl, refl, refl, refl), refl)
at_code GovernanceError.invalid_amount = (λ t. (refl, refl, refl, refl, refl), refl)
at_code GovernanceError.insufficient_deposit = (λ t. (refl, refl, refl, refl, refl), refl)
at_code GovernanceError.not_executable = (λ t. (refl, refl, refl, refl, refl), refl)
at_code GovernanceError.proposal_not_cancellable = (λ t. (refl, refl, refl, refl, refl), refl)
at_code GovernanceError.proposer_on_cooldown = (λ t. (refl, refl, refl, refl, refl), refl)
at_code GovernanceError.voting_not_started = (λ t. (refl, refl, refl, refl, refl), refl)
