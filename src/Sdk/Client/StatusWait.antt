-- ===== src/Sdk/Client/StatusWait.antt =====
-- `waitForProposalStatus` of sdk/src/client.ts, with the clock of `Polling`: read `n` of the proposal
-- takes `took n` milliseconds, and the delay behind it fires `late n` after it is due.
pub mod Reached
mod Tests
use text.Mathlib.Text.{◌==◌ as same_text}
use stellar_quorum.Base.{
  ℕ, zero, suc, ◌+◌, ◌*◌, ◌-◌, ◌≤◌, ◌<◌, min, String, ◌≡◌, refl, ap, Bool, true, false, Option,
  none, some, if◌then◌else◌, leb, get_or, or_else, ◌==◌, inl, inr, Bool-cases, Option-cases, arith,
  ◌⊎◌,
}
use stellar_quorum.Base.Result.{Result, ok, err}
use stellar_quorum.Base.Text.{◌<>◌, decimal}
use stellar_quorum.Sdk.Types.{Proposal, ProposalStatus, QuorumClientConfig, WaitForStatusOptions}
use stellar_quorum.Sdk.Errors.{Thrown, instance_of, proposal_not_found, proposal_status_timeout}
use stellar_quorum.Sdk.Client.Transport.{default_poll_interval_ms, default_confirmation_timeout_ms}
use stellar_quorum.Sdk.Client.Decoding.{status_name}
use stellar_quorum.Sdk.Client.Window.{status_index}
use stellar_quorum.Sdk.Client.Polling.{Waited}

-- `new ProposalNotFoundError(proposalId)`
unfoldable pub proposal_not_found_error : ℕ → Thrown
proposal_not_found_error id = instance_of proposal_not_found ("Proposal not found: " <> decimal id)

-- `new ProposalStatusTimeoutError(proposalId, targetStatus, lastStatus, timeoutMs)`
unfoldable pub proposal_status_timeout_error : ℕ → ProposalStatus → ProposalStatus → ℕ → Thrown
proposal_status_timeout_error id target last timeout =
    instance_of (proposal_status_timeout id target last) (
      "Proposal "
      <> decimal id
      <> " did not reach "
      <> status_name target
      <> " within "
      <> decimal timeout
      <> "ms (last status: "
      <> status_name last
      <> ")")

abbrev pub has_status : ProposalStatus → Proposal → Bool
has_status target p = status_index p.status == status_index target

-- What a read means for the wait: its end, or the status seen.
pub data Verdict : Type 0 where
  ends : Result Thrown Proposal → Verdict
  sees : ProposalStatus → Verdict

abbrev pub verdict : ℕ → ProposalStatus → Result Thrown (Option Proposal) → Verdict
verdict id target (err e) = ends (err e)
verdict id target (ok none) = ends (err (proposal_not_found_error id))
verdict id target (ok (some p)) = if has_status target p then ends (ok p) else sees p.status

module _ (id : ℕ) (target : ProposalStatus) (get : ℕ → Result Thrown (Option Proposal))
    (took late : ℕ → ℕ) (interval timeout deadline : ℕ) where
  abbrev pub next_read : ℕ → ℕ → ℕ
  next_read n now = now + took n + min interval (deadline - (now + took n)) + late n

  abbrev pub judged : Verdict → ℕ → Waited Proposal → Waited Proposal
  judged (ends r) now rest = record { answer = some r; polls = 1 }
  judged (sees status) now rest =
      if leb deadline now
      then record {
        answer = some (err (proposal_status_timeout_error id target status timeout));
        polls = 1;
      }
      else record { answer = rest.answer; polls = suc rest.polls }

  -- The loop from read `n` at the time `now`, in at most `rounds` rounds.
  unfoldable pub status_loop : ℕ → ℕ → ℕ → Waited Proposal
  status_loop zero n now = record { answer = none; polls = 0 }
  status_loop (suc rounds) n now =
      let rest = status_loop rounds (suc n) (next_read n now) in
      judged (verdict id target (get n)) (now + took n) rest

abbrev pub status_interval : QuorumClientConfig → WaitForStatusOptions → ℕ
status_interval c o =
    get_or (or_else o.poll_interval_ms c.poll_interval_ms) default_poll_interval_ms

-- The client's own `confirmationTimeoutMs` is not asked here.
abbrev pub status_timeout : WaitForStatusOptions → ℕ
status_timeout o = get_or o.timeout_ms default_confirmation_timeout_ms

unfoldable pub wait_for_proposal_status :
    QuorumClientConfig
    → WaitForStatusOptions
    → ℕ
    → ProposalStatus
    → (ℕ → Result Thrown (Option Proposal))
    → (ℕ → ℕ)
    → (ℕ → ℕ)
    → ℕ
    → Waited Proposal
wait_for_proposal_status c o id target get took late now =
    status_loop id target get took late (status_interval c o) (status_timeout o)
      (now + status_timeout o) (suc (status_timeout o)) 0 now
