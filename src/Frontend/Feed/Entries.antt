-- ===== src/Frontend/Feed/Entries.antt =====
-- The order of the feed's items, and what the feed says of each proposal.
use mathlib.Core.List.{Perm}
use stellar_quorum.Base.{ℕ, ◌≡◌, ◌==◌, List, arith, keep}
use stellar_quorum.Base.Sort.{IsConsistent, IsSorted, sort-perm, sort-IsSorted, keep-sort}
use stellar_quorum.Frontend.Types.{Proposal}
use stellar_quorum.Frontend.Feed.{Dates, is_older, newest_first}

is_older-IsConsistent : (dates : Dates) → IsConsistent (is_older dates)
is_older-IsConsistent dates = record {
  one_way = λ a b h. ground arith;
  chains = λ a b c h k. ground arith;
}

-- The feed has the proposals, none more or less, from the newest to the oldest start, and those with
-- one start in the order of the list.
pub newest_first-IsSorted :
    (dates : Dates) (proposals : List Proposal) (t : ℕ)
    → Perm (newest_first dates proposals) proposals
      × IsSorted (is_older dates) (newest_first dates proposals)
      × (keep (λ p. dates.time p.start_time == t) (newest_first dates proposals)
          ≡ keep (λ p. dates.time p.start_time == t) proposals)
unfolding newest_first
newest_first-IsSorted dates proposals t = (
  sort-perm (is_older dates) proposals,
  sort-IsSorted (is_older dates) (is_older-IsConsistent dates) proposals,
  keep-sort (is_older dates) (λ p. dates.time p.start_time == t) (λ a b h k. ground arith)
      proposals,
)
