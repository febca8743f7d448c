-- ===== src/Sdk/Client/StatusWait/Tests.antt =====
-- Runs of `waitForProposalStatus`, and its property at an input that meets its premise.
use stellar_quorum.Base.{ℕ, zero, ◌+◌, ◌≡◌, refl, Option, some, arith}
use stellar_quorum.Base.Result.{Result, ok, err}
use stellar_quorum.Sdk.Types.{
  Proposal, ProposalStatus, active, queued, executed, WaitForStatusOptions,
}
use stellar_quorum.Sdk.Errors.{Thrown}
use stellar_quorum.Sdk.Client.Samples.{plain_config}
use stellar_quorum.Sdk.Client.StatusWait.{
  wait_for_proposal_status, status_loop, status_interval, status_timeout,
  proposal_status_timeout_error,
}
use stellar_quorum.Sdk.Client.StatusWait.Reached.{Reaches, wait_for_proposal_status-Reaches}

abbrev proposal_with : ProposalStatus → Proposal
proposal_with s = record {
  id = 7;
  proposer = "GA";
  title = "t";
  description = "d";
  for_votes = 5;
  against_votes = 1;
  abstain_votes = 0;
  snapshot_ledger = 10;
  start_ledger = 11;
  end_ledger = 20;
  queue_ledger = 0;
  quorum_required = 4;
  status = s;
}

abbrev reads : ℕ → Result Thrown (Option Proposal)
reads zero = ok (some (proposal_with active))
reads _ = ok (some (proposal_with queued))

abbrev quick : WaitForStatusOptions
quick = record { poll_interval_ms = some 2; timeout_ms = some 5 }

abbrev took : ℕ → ℕ
took n = 1

abbrev late : ℕ → ℕ
late n = 0

queued_at_second :
    wait_for_proposal_status plain_config quick 7 queued reads took late 100
    ≡ record { answer = some (ok (proposal_with queued)); polls = 2 }
unfolding wait_for_proposal_status status_loop
queued_at_second = refl

never_executed :
    wait_for_proposal_status plain_config quick 7 executed reads took late 100
    ≡ record { answer = some (err (proposal_status_timeout_error 7 executed queued 5)); polls = 3 }
unfolding wait_for_proposal_status status_loop
never_executed = refl

wait_for_proposal_status-Reaches_example :
    Reaches 7 queued reads took late
      (status_interval plain_config quick)
      (status_timeout quick)
      (100 + status_timeout quick)
      0
      100
      (wait_for_proposal_status plain_config quick 7 queued reads took late 100)
wait_for_proposal_status-Reaches_example =
    wait_for_proposal_status-Reaches plain_config quick 7 queued reads took late 100 (omega arith)
