-- ===== src/Frontend/Delegates.antt =====
-- frontend/lib/delegates.ts: the ranking of delegates and what one address voted.
-- `locale_after a b` is `a.localeCompare(b) > 0`, `time` is `Date.parse` of a date that it can read.
pub mod Ranking
mod Tests
use text.Mathlib.Text.{◌==◌ as same_text}
use stellar_quorum.Base.{ℕ, String, Bool, ◌&&◌, ◌||◌, ltb, ◌==◌, List, [], ◌∷◌, ◌++◌, map, keep}
use stellar_quorum.Base.Sort.{sort}
use stellar_quorum.Frontend.Types.{Proposal, Vote, VoteChoice}

pub record DelegateSummary : Type 0 where
  pub address : String
  pub delegated_weight : ℕ
  pub delegator_count : ℕ

pub record ParticipationEntry : Type 0 where
  pub proposal_id : String
  pub title : String
  pub choice : VoteChoice
  pub weight : ℕ
  pub timestamp : String

-- `b.delegatedWeight - a.delegatedWeight || a.address.localeCompare(b.address)`
abbrev pub ranks_after : (String → String → Bool) → DelegateSummary → DelegateSummary → Bool
ranks_after locale_after a b =
    ltb a.delegated_weight b.delegated_weight
    || a.delegated_weight == b.delegated_weight && locale_after a.address b.address

unfoldable pub rank_delegates :
    (String → String → Bool) → List DelegateSummary → List DelegateSummary
rank_delegates locale_after delegates = sort (ranks_after locale_after) delegates

abbrev entry_of : Proposal → Vote → ParticipationEntry
entry_of p v = record {
  proposal_id = p.id;
  title = p.title;
  choice = v.choice;
  weight = v.weight;
  timestamp = v.timestamp;
}

-- The votes of one address, by proposal.
unfoldable pub votes_of : String → List Proposal → List ParticipationEntry
votes_of address [] = []
votes_of address (p ∷ ps) =
    map (entry_of p) (keep (λ v. same_text v.voter address) p.votes) ++ votes_of address ps

abbrev pub voted_before : (String → ℕ) → ParticipationEntry → ParticipationEntry → Bool
voted_before time a b = ltb (time a.timestamp) (time b.timestamp)

unfoldable pub participation_for : (String → ℕ) → String → List Proposal → List ParticipationEntry
unfolding votes_of
participation_for time address proposals = sort (voted_before time) (votes_of address proposals)
