-- ===== src/Frontend/Listing/Tests.antt =====
-- The fixture's proposals, listed.
use stellar_quorum.Base.{◌≡◌, refl, some, [], ◌∷◌}
use stellar_quorum.Base.Sort.{sort, insert}
use stellar_quorum.Base.Text.{decimal, decimal_onto}
use stellar_quorum.Frontend.Samples.{longer}
use stellar_quorum.Frontend.Types.{failed}
use stellar_quorum.Frontend.Listing.{
  votes, filtered_by, listed, active_count, quorum_pct, thousands,
}
use stellar_quorum.Frontend.Proposals.Fixture.{qip_001, qip_003, qip_008, proposals}

failed_by_votes : listed (λ s. 0) longer (some failed) votes proposals ≡ qip_008 ∷ qip_003 ∷ []
unfolding listed filtered_by sort insert
failed_by_votes = refl

two_active : active_count proposals ≡ 2
unfolding active_count
two_active = refl

past_quorum : quorum_pct qip_001 ≡ 100
unfolding quorum_pct
past_quorum = refl

in_thousands : thousands 842500 ≡ "843K"
unfolding thousands decimal decimal_onto
in_thousands = refl
