-- ===== src/Sdk/Errors/Codes.antt =====
-- The enumerations of sdk/src/errors.ts and their numbers.
use stellar_quorum.Base.{
  ℕ, zero, suc, ◌≡◌, refl, List, [], ◌∷◌, Option, none, some, get_elem?, length, arith, ◌<◌, ◌≤◌,
}

pub data GovernanceError : Type 0 where
  already_initialized unauthorized proposal_not_found voting_not_active : GovernanceError
  already_voted quorum_not_reached proposal_not_passed already_executed : GovernanceError
  below_proposal_threshold invalid_vote_choice voting_period_ended timelock_not_expired :
      GovernanceError
  overflow no_voting_power execution_expired contract_paused : GovernanceError
  invalid_quorum_bps not_initialized empty_title title_too_long : GovernanceError
  description_too_long minimum_quorum_required minimum_timelock_required empty_veto_reason :
      GovernanceError
  veto_reason_too_long veto_window_closed target_not_allowed invalid_cosponsors : GovernanceError
  invalid_amount insufficient_deposit not_executable proposal_not_cancellable : GovernanceError
  proposer_on_cooldown voting_not_started : GovernanceError

pub data TokenError : Type 0 where
  already_initialized unauthorized insufficient_balance insufficient_allowance : TokenError
  invalid_amount overflow invalid_expiration invalid_supply : TokenError
  invalid_decimals : TokenError

-- In the order of their numbers, from 1.
abbrev pub governance_errors : List GovernanceError
governance_errors =
    GovernanceError.already_initialized ∷ GovernanceError.unauthorized
    ∷ GovernanceError.proposal_not_found ∷ GovernanceError.voting_not_active
    ∷ GovernanceError.already_voted ∷ GovernanceError.quorum_not_reached
    ∷ GovernanceError.proposal_not_passed ∷ GovernanceError.already_executed
    ∷ GovernanceError.below_proposal_threshold ∷ GovernanceError.invalid_vote_choice
    ∷ GovernanceError.voting_period_ended ∷ GovernanceError.timelock_not_expired
    ∷ GovernanceError.overflow ∷ GovernanceError.no_voting_power ∷ GovernanceError.execution_expired
    ∷ GovernanceError.contract_paused ∷ GovernanceError.invalid_quorum_bps
    ∷ GovernanceError.not_initialized ∷ GovernanceError.empty_title ∷ GovernanceError.title_too_long
    ∷ GovernanceError.description_too_long ∷ GovernanceError.minimum_quorum_required
    ∷ GovernanceError.minimum_timelock_required ∷ GovernanceError.empty_veto_reason
    ∷ GovernanceError.veto_reason_too_long ∷ GovernanceError.veto_window_closed
    ∷ GovernanceError.target_not_allowed ∷ GovernanceError.invalid_cosponsors
    ∷ GovernanceError.invalid_amount ∷ GovernanceError.insufficient_deposit
    ∷ GovernanceError.not_executable ∷ GovernanceError.proposal_not_cancellable
    ∷ GovernanceError.proposer_on_cooldown ∷ GovernanceError.voting_not_started ∷ []

abbrev pub token_errors : List TokenError
token_errors =
    TokenError.already_initialized ∷ TokenError.unauthorized ∷ TokenError.insufficient_balance
    ∷ TokenError.insufficient_allowance ∷ TokenError.invalid_amount ∷ TokenError.overflow
    ∷ TokenError.invalid_expiration ∷ TokenError.invalid_supply ∷ TokenError.invalid_decimals ∷ []

-- The value of the enumeration member.
unfoldable pub governance_code : GovernanceError → ℕ
governance_code GovernanceError.already_initialized = 1
governance_code GovernanceError.unauthorized = 2
governance_code GovernanceError.proposal_not_found = 3
governance_code GovernanceError.voting_not_active = 4
governance_code GovernanceError.already_voted = 5
governance_code GovernanceError.quorum_not_reached = 6
governance_code GovernanceError.proposal_not_passed = 7
governance_code GovernanceError.already_executed = 8
governance_code GovernanceError.below_proposal_threshold = 9
governance_code GovernanceError.invalid_vote_choice = 10
governance_code GovernanceError.voting_period_ended = 11
governance_code GovernanceError.timelock_not_expired = 12
governance_code GovernanceError.overflow = 13
governance_code GovernanceError.no_voting_power = 14
governance_code GovernanceError.execution_expired = 15
governance_code GovernanceError.contract_paused = 16
governance_code GovernanceError.invalid_quorum_bps = 17
governance_code GovernanceError.not_initialized = 18
governance_code GovernanceError.empty_title = 19
governance_code GovernanceError.title_too_long = 20
governance_code GovernanceError.description_too_long = 21
governance_code GovernanceError.minimum_quorum_required = 22
governance_code GovernanceError.minimum_timelock_required = 23
governance_code GovernanceError.empty_veto_reason = 24
governance_code GovernanceError.veto_reason_too_long = 25
governance_code GovernanceError.veto_window_closed = 26
governance_code GovernanceError.target_not_allowed = 27
governance_code GovernanceError.invalid_cosponsors = 28
governance_code GovernanceError.invalid_amount = 29
governance_code GovernanceError.insufficient_deposit = 30
governance_code GovernanceError.not_executable = 31
governance_code GovernanceError.proposal_not_cancellable = 32
governance_code GovernanceError.proposer_on_cooldown = 33
governance_code GovernanceError.voting_not_started = 34

unfoldable pub token_code : TokenError → ℕ
token_code TokenError.already_initialized = 1
token_code TokenError.unauthorized = 2
token_code TokenError.insufficient_balance = 3
token_code TokenError.insufficient_allowance = 4
token_code TokenError.invalid_amount = 5
token_code TokenError.overflow = 6
token_code TokenError.invalid_expiration = 7
token_code TokenError.invalid_supply = 8
token_code TokenError.invalid_decimals = 9

-- `n in GovernanceError ? n : undefined`: the reverse mapping has the members' numbers as keys.
unfoldable pub governance_error_of : ℕ → Option GovernanceError
governance_error_of zero = none
governance_error_of (suc n) = get_elem? governance_errors n

unfoldable pub token_error_of : ℕ → Option TokenError
token_error_of zero = none
token_error_of (suc n) = get_elem? token_errors n

pub governance_error_of-governance_code :
    (e : GovernanceError) → governance_error_of (governance_code e) ≡ some e
unfolding governance_error_of governance_code
governance_error_of-governance_code GovernanceError.already_initialized = refl
governance_error_of-governance_code GovernanceError.unauthorized = refl
governance_error_of-governance_code GovernanceError.proposal_not_found = refl
governance_error_of-governance_code GovernanceError.voting_not_active = refl
governance_error_of-governance_code GovernanceError.already_voted = refl
governance_error_of-governance_code GovernanceError.quorum_not_reached = refl
governance_error_of-governance_code GovernanceError.proposal_not_passed = refl
governance_error_of-governance_code GovernanceError.already_executed = refl
governance_error_of-governance_code GovernanceError.below_proposal_threshold = refl
governance_error_of-governance_code GovernanceError.invalid_vote_choice = refl
governance_error_of-governance_code GovernanceError.voting_period_ended = refl
governance_error_of-governance_code GovernanceError.timelock_not_expired = refl
governance_error_of-governance_code GovernanceError.overflow = refl
governance_error_of-governance_code GovernanceError.no_voting_power = refl
governance_error_of-governance_code GovernanceError.execution_expired = refl
governance_error_of-governance_code GovernanceError.contract_paused = refl
governance_error_of-governance_code GovernanceError.invalid_quorum_bps = refl
governance_error_of-governance_code GovernanceError.not_initialized = refl
governance_error_of-governance_code GovernanceError.empty_title = refl
governance_error_of-governance_code GovernanceError.title_too_long = refl
governance_error_of-governance_code GovernanceError.description_too_long = refl
governance_error_of-governance_code GovernanceError.minimum_quorum_required = refl
governance_error_of-governance_code GovernanceError.minimum_timelock_required = refl
governance_error_of-governance_code GovernanceError.empty_veto_reason = refl
governance_error_of-governance_code GovernanceError.veto_reason_too_long = refl
governance_error_of-governance_code GovernanceError.veto_window_closed = refl
governance_error_of-governance_code GovernanceError.target_not_allowed = refl
governance_error_of-governance_code GovernanceError.invalid_cosponsors = refl
governance_error_of-governance_code GovernanceError.invalid_amount = refl
governance_error_of-governance_code GovernanceError.insufficient_deposit = refl
governance_error_of-governance_code GovernanceError.not_executable = refl
governance_error_of-governance_code GovernanceError.proposal_not_cancellable = refl
governance_error_of-governance_code GovernanceError.proposer_on_cooldown = refl
governance_error_of-governance_code GovernanceError.voting_not_started = refl

pub token_error_of-token_code : (e : TokenError) → token_error_of (token_code e) ≡ some e
unfolding token_error_of token_code
token_error_of-token_code TokenError.already_initialized = refl
token_error_of-token_code TokenError.unauthorized = refl
token_error_of-token_code TokenError.insufficient_balance = refl
token_error_of-token_code TokenError.insufficient_allowance = refl
token_error_of-token_code TokenError.invalid_amount = refl
token_error_of-token_code TokenError.overflow = refl
token_error_of-token_code TokenError.invalid_expiration = refl
token_error_of-token_code TokenError.invalid_supply = refl
token_error_of-token_code TokenError.invalid_decimals = refl

get_elem?_past {ℓ} : {A : Type ℓ} (xs : List A) (n : ℕ) → length xs ≤ n → get_elem? xs n ≡ none
get_elem?_past [] n h = refl
get_elem?_past (x ∷ xs) zero h = absurd (omega arith)
get_elem?_past (x ∷ xs) (suc n) h = get_elem?_past xs n (omega arith)

pub governance_error_of_past : (n : ℕ) → 34 < n → governance_error_of n ≡ none
unfolding governance_error_of
governance_error_of_past zero h = refl
governance_error_of_past (suc n) h = get_elem?_past governance_errors n (omega arith)

pub token_error_of_past : (n : ℕ) → 9 < n → token_error_of n ≡ none
unfolding token_error_of
token_error_of_past zero h = refl
token_error_of_past (suc n) h = get_elem?_past token_errors n (omega arith)
