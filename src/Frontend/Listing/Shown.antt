-- ===== src/Frontend/Listing/Shown.antt =====
-- What the list shows under each filter and in each order.
use mathlib.Core.List.{Perm}
use stellar_quorum.Base.{ℕ, String, Bool, Option, List, arith}
use stellar_quorum.Base.Sort.{IsConsistent, IsSorted, sort-perm, sort-IsSorted}
use stellar_quorum.Frontend.Types.{Proposal, ProposalStatus}
use stellar_quorum.Frontend.Listing.{
  SortKey, recent, votes, title, comes_after, filtered_by, listed,
}

module _ (time : String → ℕ) (locale_after : String → String → Bool)
    (consistent : IsConsistent locale_after) where
  comes_after-IsConsistent : (key : SortKey) → IsConsistent (comes_after time locale_after key)
  comes_after-IsConsistent votes = record {
    one_way = λ a b h. ground arith;
    chains = λ a b c h k. ground arith;
  }
  comes_after-IsConsistent recent = record {
    one_way = λ a b h. ground arith;
    chains = λ a b c h k. ground arith;
  }
  comes_after-IsConsistent title = record {
    one_way = λ a b h. consistent.one_way a.title b.title h;
    chains = λ a b c h k. consistent.chains a.title b.title c.title h k;
  }

  -- Under any filter and in any of the three orders the list has the proposals that the filter lets
  -- through, each as often, and sorted.
  pub listed-IsSorted :
      (filter : Option ProposalStatus) (key : SortKey) (proposals : List Proposal)
      → Perm (listed time locale_after filter key proposals) (filtered_by filter proposals)
        × IsSorted
            (comes_after time locale_after key)
            (listed time locale_after filter key proposals)
  unfolding listed
  listed-IsSorted filter key proposals = (
    sort-perm (comes_after time locale_after key) (filtered_by filter proposals),
    sort-IsSorted (comes_after time locale_after key) (comes_after-IsConsistent key)
        (filtered_by filter proposals),
  )
