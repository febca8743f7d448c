-- ===== src/Frontend/Listing.antt =====
-- frontend/components/ProposalList.tsx: which proposals are listed, in which order, and the figures of a
-- compact row. A quotient is taken exactly.
pub mod Shown
mod Tests
use stellar_quorum.Base.{
  ℕ, ◌+◌, ◌*◌, ◌/◌, min, String, Bool, true, false, ltb, ◌==◌, Option, none, some, List, [], ◌∷◌,
  keep, length, if◌then◌else◌,
}
use stellar_quorum.Base.Sort.{sort}
use stellar_quorum.Base.Text.{◌<>◌, decimal}
use stellar_quorum.Frontend.Types.{
  Proposal, ProposalStatus, active, passed, failed, pending, executed, cancelled,
}

pub data SortKey : Type 0 where
  recent votes title : SortKey

abbrev status_index : ProposalStatus → ℕ
status_index active = 0
status_index passed = 1
status_index failed = 2
status_index pending = 3
status_index executed = 4
status_index cancelled = 5

abbrev pub has_status : ProposalStatus → Proposal → Bool
has_status s p = status_index p.status == status_index s

abbrev pub total_votes : Proposal → ℕ
total_votes p = p.for_votes + p.against_votes + p.abstain_votes

-- No status is "all".
unfoldable pub filtered_by : Option ProposalStatus → List Proposal → List Proposal
filtered_by none ps = ps
filtered_by (some s) ps = keep (has_status s) ps

module _ (time : String → ℕ) (locale_after : String → String → Bool) where
  abbrev pub comes_after : SortKey → Proposal → Proposal → Bool
  comes_after votes a b = ltb (total_votes a) (total_votes b)
  comes_after title a b = locale_after a.title b.title
  comes_after recent a b = ltb (time a.start_time) (time b.start_time)

  unfoldable pub listed : Option ProposalStatus → SortKey → List Proposal → List Proposal
  unfolding filtered_by
  listed filter key proposals = sort (comes_after key) (filtered_by filter proposals)

unfoldable pub active_count : List Proposal → ℕ
active_count proposals = length (keep (has_status active) proposals)

-- `Math.round(n / d)`
abbrev pub rounded_div : ℕ → ℕ → ℕ
rounded_div n d = (2 * n + d) / (2 * d)

unfoldable pub quorum_pct : Proposal → ℕ
quorum_pct p =
    if ltb 0 p.quorum_required
    then min 100 (rounded_div (total_votes p * 100) p.quorum_required)
    else 100

-- `(n / 1000).toFixed(0)` and a "K"
unfoldable pub thousands : ℕ → String
unfolding decimal
thousands n = decimal (rounded_div n 1000) <> "K"
