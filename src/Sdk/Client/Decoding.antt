-- ===== src/Sdk/Client/Decoding.antt =====
-- The end of sdk/src/client.ts: what the contract's structs are decoded to, and `getProposal`.
use text.Mathlib.Text.{◌==◌ as same_text}
use text.Mathlib.TextEquality.{eq_iff}
use stellar_quorum.Base.{
  ℕ, String, ◌≡◌, refl, ◌↔◌, Bool, true, false, Option, none, some, List, [], ◌∷◌, if◌then◌else◌,
  Bool-cases, inl, inr, sym, ap, ◌∙◌,
}
use stellar_quorum.Base.Result.{Result, ok, err, ◌>>=◌}
use stellar_quorum.Base.Text.{◌<>◌}
use stellar_quorum.Sdk.Types.{
  Proposal, ProposalStatus, pending, active, passed, failed, queued, executed, cancelled,
  GovernanceConfig,
}
use stellar_quorum.Sdk.Errors.{Thrown, instance_of, error, parse_governance_error}
use stellar_quorum.Sdk.Errors.Codes.{GovernanceError}

-- A unit enum variant `[name]` is its name.
pub record RawProposal : Type 0 where
  pub id : ℕ
  pub proposer : String
  pub title : String
  pub description : String
  pub for_votes : ℕ
  pub against_votes : ℕ
  pub abstain_votes : ℕ
  pub snapshot_ledger : ℕ
  pub start_ledger : ℕ
  pub end_ledger : ℕ
  pub queue_ledger : ℕ
  pub quorum_required : ℕ
  pub status : String

pub record RawConfig : Type 0 where
  pub token : String
  pub quorum_bps : ℕ
  pub voting_period : ℕ
  pub timelock_period : ℕ
  pub proposal_threshold : ℕ
  pub admin : String

-- `PROPOSAL_STATUSES`, with the member that each name is.
abbrev pub proposal_statuses : List (String × ProposalStatus)
proposal_statuses =
    ("Pending", pending)
    ∷ ("Active", active)
    ∷ ("Passed", passed)
    ∷ ("Failed", failed)
    ∷ ("Queued", queued)
    ∷ ("Executed", executed)
    ∷ ("Cancelled", cancelled)
    ∷ []

unfoldable pub status_named : String → List (String × ProposalStatus) → Option ProposalStatus
status_named name [] = none
status_named name ((n, s) ∷ more) = if same_text n name then some s else status_named name more

abbrev known_or_throw : String → Option ProposalStatus → Result Thrown ProposalStatus
known_or_throw name none = err (instance_of error ("Unknown ProposalStatus variant: " <> name))
known_or_throw name (some s) = ok s

unfoldable pub decode_status : String → Result Thrown ProposalStatus
unfolding status_named
decode_status name = known_or_throw name (status_named name proposal_statuses)

unfoldable pub decode_proposal : RawProposal → Result Thrown Proposal
decode_proposal raw = do
  status ← decode_status raw.status
  ok (record {
    id = raw.id;
    proposer = raw.proposer;
    title = raw.title;
    description = raw.description;
    for_votes = raw.for_votes;
    against_votes = raw.against_votes;
    abstain_votes = raw.abstain_votes;
    snapshot_ledger = raw.snapshot_ledger;
    start_ledger = raw.start_ledger;
    end_ledger = raw.end_ledger;
    queue_ledger = raw.queue_ledger;
    quorum_required = raw.quorum_required;
    status = status;
  })

unfoldable pub decode_config : RawConfig → GovernanceConfig
decode_config raw = record {
  token = raw.token;
  quorum_bps = raw.quorum_bps;
  voting_period = raw.voting_period;
  timelock_period = raw.timelock_period;
  proposal_threshold = raw.proposal_threshold;
  admin = raw.admin;
}

abbrev pub is_not_found : Option GovernanceError → Bool
is_not_found (some GovernanceError.proposal_not_found) = true
is_not_found _ = false

-- The `catch` of `getProposal`: a proposal that the contract does not know is `null`.
abbrev pub null_if_not_found : Result Thrown Proposal → Result Thrown (Option Proposal)
null_if_not_found (ok p) = ok (some p)
null_if_not_found (err e) = if is_not_found (parse_governance_error e) then ok none else err e

-- The request of `getProposal`, from what the simulation of `get_proposal` gave.
unfoldable pub get_proposal_request : Result Thrown RawProposal → Result Thrown (Option Proposal)
get_proposal_request simulated = null_if_not_found (do raw ← simulated; decode_proposal raw)

-- The member as the text that it is in the source.
abbrev pub status_name : ProposalStatus → String
status_name pending = "Pending"
status_name active = "Active"
status_name passed = "Passed"
status_name failed = "Failed"
status_name queued = "Queued"
status_name executed = "Executed"
status_name cancelled = "Cancelled"

-- What the names of the list are decoded to.
abbrev Named : List (String × ProposalStatus) → Type 0
Named [] = Unit
Named ((n, s) ∷ more) = (n ≡ status_name s) × Named more

status_named-Named :
    (name : String) (rows : List (String × ProposalStatus)) (s : ProposalStatus)
    → Named rows
    → status_named name rows ≡ some s
    → name ≡ status_name s
unfolding status_named
status_named-Named name [] s h e = cc
status_named-Named name ((n, t) ∷ more) s h e = elim (Bool-cases (same_text n name)) [
  | inl same ↦
      let found : some t ≡ some s = rw same at e in
      let t_is_s : t ≡ s = cc in sym ((eq_iff n name).0 same) ∙ h.0 ∙ ap status_name t_is_s
  | inr other ↦ status_named-Named name more s h.1 (rw other at e)
]

known_or_throw-eq-ok :
    (name : String) (found : Option ProposalStatus) (s : ProposalStatus)
    → known_or_throw name found ≡ ok s
    → found ≡ some s
known_or_throw-eq-ok name none s e = cc
known_or_throw-eq-ok name (some t) s e = cc

decode_status-status_name : (s : ProposalStatus) → decode_status (status_name s) ≡ ok s
unfolding decode_status status_named
decode_status-status_name pending = refl
decode_status-status_name active = refl
decode_status-status_name passed = refl
decode_status-status_name failed = refl
decode_status-status_name queued = refl
decode_status-status_name executed = refl
decode_status-status_name cancelled = refl

-- A status is decoded to a member exactly when it is the member's own name.
pub decode_status-status_name_iff :
    (name : String) (s : ProposalStatus) → (decode_status name ≡ ok s) ↔ (name ≡ status_name s)
unfolding decode_status
decode_status-status_name_iff name s = (
  λ e.
      status_named-Named name proposal_statuses s
        (refl, (refl, (refl, (refl, (refl, (refl, (refl, tt)))))))
        (known_or_throw-eq-ok name (status_named name proposal_statuses) s e),
  λ e. rw e (decode_status-status_name s),
)
