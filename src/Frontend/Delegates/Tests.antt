-- ===== src/Frontend/Delegates/Tests.antt =====
-- A small directory of delegates; names compare by their length here.
use stellar_quorum.Base.{ℕ, String, ◌≡◌, refl, List, [], ◌∷◌}
use stellar_quorum.Base.Sort.{sort, insert}
use stellar_quorum.Frontend.Samples.{longer}
use stellar_quorum.Frontend.Delegates.{DelegateSummary, rank_delegates}

abbrev delegate : String → ℕ → DelegateSummary
delegate address weight = record {
  address = address;
  delegated_weight = weight;
  delegator_count = 1;
}

abbrev three : List DelegateSummary
three = delegate "GAAA" 5 ∷ delegate "GB" 9 ∷ delegate "GC" 5 ∷ []

ranked : rank_delegates longer three ≡ delegate "GB" 9 ∷ delegate "GC" 5 ∷ delegate "GAAA" 5 ∷ []
unfolding rank_delegates sort insert
ranked = refl
