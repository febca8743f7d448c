-- ===== src/Sdk/Client/Window.antt =====
-- Proposal listing of sdk/src/client.ts: `fetchProposalWindow` and the reads that call it.
-- `count` is what `getProposalCount` gives, `proposal id` what `getProposal` gives for an id.
pub mod Pages
mod Tests
pub mod Failures
use stellar_quorum.Base.{
  ℕ, zero, suc, ◌+◌, ◌-◌, min, String, ◌≡◌, Bool, true, false, Option, none, some, List, [], ◌∷◌,
  if◌then◌else◌, leb, ◌==◌, keep, get_or, not,
}
use stellar_quorum.Base.Number.{Number, nat, print, is_whole, ceiling}
use stellar_quorum.Base.Result.{Result, ok, err, ◌>>=◌, traverse}
use stellar_quorum.Base.Text.{◌<>◌}
use stellar_quorum.Sdk.Types.{
  Proposal, ProposalStatus, pending, active, passed, failed, queued, executed, cancelled,
  GetProposalsOptions,
}
use stellar_quorum.Sdk.Errors.{Thrown, instance_of, error}

abbrev pub default_page_size : ℕ
default_page_size = 50

-- The answer, how often the count was read, and the ids that were asked for.
pub record Fetched : Type 0 where
  pub result : Result Thrown (List Proposal)
  pub counts : ℕ
  pub asked : List ℕ

-- `for (let id = first; id <= end; id += 1) ids.push(id)`, in `n` rounds.
unfoldable pub ids_from : ℕ → ℕ → List ℕ
ids_from first zero = []
ids_from first (suc n) = first ∷ ids_from (suc first) n

-- `proposals.filter(Boolean)`
unfoldable pub present : List (Option Proposal) → List Proposal
present [] = []
present (none ∷ ps) = present ps
present (some p ∷ ps) = p ∷ present ps

abbrev invalid : String → Number → Thrown
invalid name n =
    instance_of error ("Invalid " <> name <> " " <> print n <> ": must be a non-negative integer")

-- `limit === 0`
abbrev is_zero : Option Number → Bool
is_zero (some (nat zero)) = true
is_zero _ = false

abbrev pub status_index : ProposalStatus → ℕ
status_index pending = 0
status_index active = 1
status_index passed = 2
status_index failed = 3
status_index queued = 4
status_index executed = 5
status_index cancelled = 6

-- The end of the window: `limit === undefined ? total : Math.min(total, offset + limit)`. The count is
-- one below 2^53, which `Number` leaves as it is.
abbrev pub window_end : ℕ → ℕ → Option Number → ℕ
window_end total offset none = total
window_end total offset (some limit) = min total (offset + ceiling limit)

module _ (count : Result Thrown ℕ) (proposal : ℕ → Result Thrown (Option Proposal)) where
  -- Of several failures of `Promise.all` the first of the list stands for the first in time.
  unfoldable pub read_window : ℕ → ℕ → Fetched
  read_window offset end =
      let ids = ids_from (offset + 1) (end - offset) in
      record { result = (do ps ← traverse proposal ids; ok (present ps)); counts = 1; asked = ids }

  abbrev stop : Result Thrown (List Proposal) → ℕ → Fetched
  stop r n = record { result = r; counts = n; asked = [] }

  abbrev bad_limit : Option Number → Bool
  bad_limit none = false
  bad_limit (some limit) = not (is_whole limit)

  abbrev with_count : ℕ → Option Number → Result Thrown ℕ → Fetched
  with_count offset limit (err e) = stop (err e) 1
  with_count offset limit (ok total) =
      if leb total offset
      then stop (ok []) 1
      else read_window offset (window_end total offset limit)

  unfoldable pub fetch_proposal_window : Number → Option Number → Fetched
  fetch_proposal_window offset limit =
      if not (is_whole offset)
      then stop (err (invalid "offset" offset)) 0
      else if bad_limit limit
      then stop (err (invalid "limit" (get_or limit (nat 0)))) 0
      else if is_zero limit
      then stop (ok []) 0
      else with_count (ceiling offset) limit count

  unfoldable pub get_proposals : GetProposalsOptions → Fetched
  unfolding fetch_proposal_window
  get_proposals o =
      fetch_proposal_window (get_or o.offset (nat 0))
        (some (get_or o.limit (nat default_page_size)))

  unfoldable pub get_all_proposals : GetProposalsOptions → Fetched
  unfolding fetch_proposal_window
  get_all_proposals o = fetch_proposal_window (get_or o.offset (nat 0)) o.limit

  -- `getProposalsByStatus`: the filter comes after the pagination.
  unfoldable pub get_proposals_by_status :
      ProposalStatus → GetProposalsOptions → Result Thrown (List Proposal)
  unfolding get_all_proposals
  get_proposals_by_status status o = do
    all ← (get_all_proposals o).result
    ok (keep (λ p. status_index p.status == status_index status) all)
