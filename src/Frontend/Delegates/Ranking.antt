-- ===== src/Frontend/Delegates/Ranking.antt =====
-- The order of the delegates.
use mathlib.Core.List.{Perm}
use stellar_quorum.Base.{String, Bool, List, arith}
use stellar_quorum.Base.Sort.{IsConsistent, IsSorted, sort-perm, sort-IsSorted}
use stellar_quorum.Frontend.Delegates.{DelegateSummary, ranks_after, rank_delegates}

module _ (locale_after : String → String → Bool) (consistent : IsConsistent locale_after) where
  ranks_after-IsConsistent : IsConsistent (ranks_after locale_after)
  ranks_after-IsConsistent = record {
    one_way = λ a b h. ground (arith, consistent.one_way a.address b.address);
    chains = λ a b c h k. ground (arith, consistent.chains a.address b.address c.address);
  }

  -- The ranking has each delegate as often as the directory, and nobody stands after one of less weight,
  -- or after one of the same weight whose address comes later.
  pub rank_delegates-IsSorted :
      (delegates : List DelegateSummary)
      → Perm (rank_delegates locale_after delegates) delegates
        × IsSorted (ranks_after locale_after) (rank_delegates locale_after delegates)
  unfolding rank_delegates
  rank_delegates-IsSorted delegates = (
    sort-perm (ranks_after locale_after) delegates,
    sort-IsSorted (ranks_after locale_after) ranks_after-IsConsistent delegates,
  )
