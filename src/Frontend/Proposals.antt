-- ===== src/Frontend/Proposals.antt =====
-- frontend/lib/proposals.ts: the proposals that the user interface shows, from the contract or from the
-- fixture. A promise that rejects is an error; of two that reject, the first of the array counts.
pub mod Fixture
pub mod Ids
mod Tests
use text.Mathlib.Text.{◌==◌ as same_text}
use Prim.Native.String.{[], ◌∷◌}
use mathlib.Core.List as L
use mathlib.Core.List.{reverse}
use stellar_quorum.Base.{
  ℕ, zero, suc, ◌+◌, ◌*◌, ◌-◌, String, Bool, Option, none, some, List, map, if◌then◌else◌,
}
use stellar_quorum.Base.Double.{number_of}
use stellar_quorum.Base.Integer.{ℤ, pos, negsuc, minus, ◌+ℤ◌}
use stellar_quorum.Base.Result.{Result, ok, err, ◌>>=◌}
use stellar_quorum.Base.Text.{◌<>◌, decimal, strip_prefix, read_number}
use stellar_quorum.Sdk.Types as Chain
use stellar_quorum.Sdk.Errors.{Thrown}
use stellar_quorum.Frontend.Env.Strkey.{text_length}
use stellar_quorum.Frontend.Types.{
  ProposalStatus, active, passed, failed, pending, executed, cancelled, Proposal,
}
use Fixture.{proposals}

-- What the client of the SDK answers.
pub record Reads : Type 0 where
  pub all_proposals : Result Thrown (List Chain.Proposal)
  pub proposal : ℕ → Result Thrown (Option Chain.Proposal)
  pub latest_ledger : Result Thrown ℕ

-- The present time in milliseconds, and `new Date(ms).toISOString()`.
pub record Clock : Type 0 where
  pub now : ℕ
  pub iso : ℤ → String

abbrev times : ℤ → ℕ → ℤ
times (pos n) k = pos (n * k)
times (negsuc n) k = minus 0 ((n + 1) * k)

abbrev pub seconds_per_ledger : ℕ
seconds_per_ledger = 5

unfoldable pub ledger_time : Clock → ℕ → ℕ → String
ledger_time clock latest_ledger ledger =
    clock.iso (pos clock.now +ℤ times (minus ledger latest_ledger) (seconds_per_ledger * 1000))

abbrev zeros : ℕ → String → String
zeros zero s = s
zeros (suc n) s = "0" <> zeros n s

-- `String(n).padStart(3, "0")`
unfoldable pub padded : ℕ → String
padded n = zeros (3 - text_length (decimal n)) (decimal n)

unfoldable pub proposal_id : ℕ → String
proposal_id n = "QIP-" <> padded n

-- A queued proposal has passed.
abbrev pub ui_status : Chain.ProposalStatus → ProposalStatus
ui_status Chain.queued = passed
ui_status Chain.pending = pending
ui_status Chain.active = active
ui_status Chain.passed = passed
ui_status Chain.failed = failed
ui_status Chain.executed = executed
ui_status Chain.cancelled = cancelled

unfoldable pub to_ui_proposal : Clock → ℕ → Chain.Proposal → Proposal
unfolding ledger_time proposal_id
to_ui_proposal clock latest_ledger p = record {
  id = proposal_id p.id;
  title = p.title;
  description = p.description;
  proposer = p.proposer;
  status = ui_status p.status;
  start_time = ledger_time clock latest_ledger p.start_ledger;
  end_time = ledger_time clock latest_ledger p.end_ledger;
  snapshot_ledger = p.snapshot_ledger;
  for_votes = number_of p.for_votes;
  against_votes = number_of p.against_votes;
  abstain_votes = number_of p.abstain_votes;
  quorum_required = number_of p.quorum_required;
  category = "General";
  actions = L.[];
  votes = L.[];
}

-- `client` is what `createQuorumClient` gives, if the fixture is off.
unfoldable pub get_proposals : Bool → Result Thrown Reads → Clock → Result Thrown (List Proposal)
get_proposals use_fixture client clock = if use_fixture then ok proposals else do
  reads ← client
  found ← reads.all_proposals
  latest ← reads.latest_ledger
  ok (reverse (map (to_ui_proposal clock latest) found))

-- `proposals.find(p => p.id === id)`
unfoldable pub find_id : String → List Proposal → Option Proposal
find_id id L.[] = none
find_id id (L.◌∷◌ p ps) = if same_text p.id id then some p else find_id id ps

-- What the group of the pattern matched, if nothing follows the digits.
abbrev whole : Option (ℕ × String) → Option ℕ
whole none = none
whole (some (n, [])) = some n
whole (some (n, c ∷ cs)) = none

abbrev behind : Option String → Option ℕ
behind none = none
behind (some digits) = whole (read_number digits)

-- `/^QIP-(\d+)$/`
unfoldable pub chain_id : String → Option ℕ
chain_id id = behind (strip_prefix "QIP-" id)

abbrev shown : Clock → ℕ → Option Chain.Proposal → Option Proposal
shown clock latest none = none
shown clock latest (some p) = some (to_ui_proposal clock latest p)

abbrev read_proposal : Result Thrown Reads → Clock → Option ℕ → Result Thrown (Option Proposal)
read_proposal client clock none = ok none
read_proposal client clock (some n) = do
  reads ← client
  found ← reads.proposal n
  latest ← reads.latest_ledger
  ok (shown clock latest found)

unfoldable pub get_proposal_by_id :
    Bool → Result Thrown Reads → Clock → String → Result Thrown (Option Proposal)
unfolding find_id
get_proposal_by_id use_fixture client clock id =
    if use_fixture then ok (find_id id proposals) else read_proposal client clock (chain_id id)
