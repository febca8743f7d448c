-- ===== src/Frontend/Proposals/Fixture.antt =====
-- The fixture of frontend/lib/proposals.ts, which is served instead of a contract's proposals.
use stellar_quorum.Base.{String, ℕ, List, [], ◌∷◌}
use stellar_quorum.Frontend.Types.{
  Vote, VoteChoice, for, against, abstain, ProposalAction, Proposal, active, passed, failed,
  pending, executed,
}

abbrev vote : String → VoteChoice → ℕ → String → Vote
vote voter choice weight timestamp = record {
  voter = voter;
  choice = choice;
  weight = weight;
  timestamp = timestamp;
}

abbrev action : String → String → String → ProposalAction
action description contract_address function_name = record {
  description = description;
  contract_address = contract_address;
  function_name = function_name;
}

abbrev pub qip_001 : Proposal
qip_001 = record {
  id = "QIP-001";
  title = "Increase Protocol Fee to 0.05%";
  description =
      "This proposal increases the base protocol fee from 0.03% to 0.05% on all swaps processed through the Quorum-governed liquidity pools. The additional fee revenue will be directed 60% to the treasury and 40% to active liquidity providers.\n\nThe current fee level was set in Genesis and has not been revisited despite significant growth in protocol TVL. An increase to 0.05% aligns Quorum with comparable governance protocols in other ecosystems.\n\nAll existing fee exemptions for governance token stakers will remain in place.";
  proposer = "GABC...3XZK";
  status = active;
  start_time = "2026-05-12T10:00:00Z";
  end_time = "2026-05-19T10:00:00Z";
  snapshot_ledger = 61284512;
  for_votes = 842000;
  against_votes = 124000;
  abstain_votes = 34000;
  quorum_required = 500000;
  actions =
      action "Update fee parameter in FeeController contract" "CCFEECONTROLLER...A7BX" "set_fee_bps"
      ∷ [];
  votes =
      vote "GDEF...8YPQ" for 120000 "2026-05-12T14:22:00Z"
      ∷ vote "GHIJ...2WNM" for 85000 "2026-05-13T09:15:00Z"
      ∷ vote "GKLM...5TRV" against 94000 "2026-05-13T11:40:00Z"
      ∷ vote "GNOP...9QSX" for 67000 "2026-05-14T07:30:00Z"
      ∷ vote "GQRS...1ZAB" abstain 34000 "2026-05-14T16:05:00Z"
      ∷ [];
  category = "Financial";
}

abbrev pub qip_002 : Proposal
qip_002 = record {
  id = "QIP-002";
  title = "Add USDC as Accepted Collateral";
  description =
      "This proposal adds Circle's USDC (issued on Stellar) as accepted collateral in the Quorum lending protocol. USDC would have an initial loan-to-value ratio of 90% and a liquidation threshold of 95%.\n\nUSDC is one of the most liquid assets on the Stellar network. Its inclusion as collateral would meaningfully expand borrowing capacity for users who hold USDC.\n\nThe Chainlink Stellar price feed for USDC/USD will be used for oracle pricing.";
  proposer = "GXYZ...7MKL";
  status = passed;
  start_time = "2026-04-28T00:00:00Z";
  end_time = "2026-05-05T00:00:00Z";
  snapshot_ledger = 60918264;
  for_votes = 1200000;
  against_votes = 89000;
  abstain_votes = 45000;
  quorum_required = 500000;
  actions =
      action "Register USDC as collateral asset" "CCOLLATERAL...B3QW" "add_collateral_asset" ∷ [];
  votes =
      vote "GAAA...1BBB" for 450000 "2026-04-28T08:00:00Z"
      ∷ vote "GCCC...3DDD" for 320000 "2026-04-29T12:00:00Z"
      ∷ vote "GEEE...5FFF" against 89000 "2026-04-30T15:00:00Z"
      ∷ vote "GGGG...7HHH" abstain 45000 "2026-05-01T09:00:00Z"
      ∷ [];
  category = "Financial";
}

abbrev pub qip_003 : Proposal
qip_003 = record {
  id = "QIP-003";
  title = "Emergency Pause of XLM/USDT Pool";
  description =
      "An emergency proposal to pause all deposits and withdrawals from the XLM/USDT liquidity pool following the detection of abnormal price oracle behavior on May 2nd. The oracle reported a 14% price deviation over 40 minutes that does not correspond to any observed market movement.\n\nThis pause is a precautionary measure while the technical committee investigates the root cause. Existing LPs will retain their positions and continue to earn accrued fees.";
  proposer = "GSEC...2RTY";
  status = failed;
  start_time = "2026-05-02T18:00:00Z";
  end_time = "2026-05-04T18:00:00Z";
  snapshot_ledger = 61006880;
  for_votes = 310000;
  against_votes = 580000;
  abstain_votes = 22000;
  quorum_required = 200000;
  actions = action "Pause XLM/USDT pool" "CCPOOL...XLM_USDT" "set_paused" ∷ [];
  votes =
      vote "GLMN...4OPQ" against 280000 "2026-05-02T19:00:00Z"
      ∷ vote "GRST...6UVW" for 200000 "2026-05-03T07:00:00Z"
      ∷ vote "GXYZ...8ABC" against 300000 "2026-05-03T10:00:00Z"
      ∷ [];
  category = "Security";
}

abbrev pub qip_004 : Proposal
qip_004 = record {
  id = "QIP-004";
  title = "Grant 50,000 XLM to Developer Guild";
  description =
      "This proposal authorizes a grant of 50,000 XLM from the Quorum Treasury to the Stellar Developer Guild for development of a Quorum SDK and documentation portal.\n\nDeliverables include: a TypeScript SDK for creating and submitting governance proposals, a documentation site, and three integration examples. The grant will be paid in two tranches of 25,000 XLM each.";
  proposer = "GDEV...5MNO";
  status = active;
  start_time = "2026-05-15T00:00:00Z";
  end_time = "2026-05-22T00:00:00Z";
  snapshot_ledger = 61337096;
  for_votes = 620000;
  against_votes = 88000;
  abstain_votes = 56000;
  quorum_required = 400000;
  actions = action "Transfer 25,000 XLM tranche 1" "CCTREASURY...M2NK" "transfer" ∷ [];
  votes =
      vote "GPQR...2STU" for 300000 "2026-05-15T08:00:00Z"
      ∷ vote "GVWX...4YZA" for 200000 "2026-05-16T10:00:00Z"
      ∷ vote "GBCD...6EFG" against 88000 "2026-05-16T14:00:00Z"
      ∷ [];
  category = "Treasury";
}

abbrev pub qip_005 : Proposal
qip_005 = record {
  id = "QIP-005";
  title = "Upgrade Governance Contract to v2";
  description =
      "This proposal executes the deployment and activation of Quorum Governance Contract v2, which introduces delegation, reduced proposal threshold (10,000 → 5,000 QUORUM), 48-hour timelock before execution, and a multisig veto guardian.\n\nThe v2 contract has been audited by Sec3 and all findings have been addressed.";
  proposer = "GCORE...9TUV";
  status = executed;
  start_time = "2026-04-01T00:00:00Z";
  end_time = "2026-04-08T00:00:00Z";
  snapshot_ledger = 60604432;
  for_votes = 1800000;
  against_votes = 45000;
  abstain_votes = 12000;
  quorum_required = 500000;
  actions =
      action "Deploy Governance v2 contract" "CCGOV_V2...X7QP" "deploy"
      ∷ action "Transfer governance admin to v2" "CCGOV_V1...A3NM" "transfer_admin"
      ∷ [];
  votes =
      vote "GWXY...2ZAB" for 900000 "2026-04-01T09:00:00Z"
      ∷ vote "GCDE...4FGH" for 600000 "2026-04-02T11:00:00Z"
      ∷ vote "GIJK...6LMN" for 300000 "2026-04-03T14:00:00Z"
      ∷ [];
  category = "Governance";
}

abbrev pub qip_006 : Proposal
qip_006 = record {
  id = "QIP-006";
  title = "Remove Deprecated Oracle Integration";
  description =
      "This proposal removes the legacy Stellar Oracle Protocol v1 integration from the Quorum price feed system. The v1 oracle was deprecated in January 2026 when Quorum migrated to Chainlink Stellar price feeds. The v1 oracle contracts will reach end-of-life on June 1st, 2026.\n\nRemoving the v1 integration cleans up technical debt and reduces attack surface.";
  proposer = "GTECH...3WXY";
  status = passed;
  start_time = "2026-04-20T00:00:00Z";
  end_time = "2026-04-27T00:00:00Z";
  snapshot_ledger = 60877190;
  for_votes = 980000;
  against_votes = 22000;
  abstain_votes = 8000;
  quorum_required = 300000;
  actions =
      action "Unregister v1 oracle from PriceFeed contract" "CCPRICEFEED...R4EW" "remove_oracle"
      ∷ [];
  votes =
      vote "GZAB...0CDE" for 500000 "2026-04-20T10:00:00Z"
      ∷ vote "GFGH...2IJK" for 480000 "2026-04-21T13:00:00Z"
      ∷ [];
  category = "Technical";
}

abbrev pub qip_007 : Proposal
qip_007 = record {
  id = "QIP-007";
  title = "Reduce Quorum Threshold to 4%";
  description =
      "This proposal reduces the minimum quorum threshold for standard governance proposals from 5% to 4% of circulating QUORUM supply. The current 5% threshold has become harder to reach as tokens have been more widely distributed.\n\nReducing to 4% prevents governance paralysis on important but non-controversial proposals.";
  proposer = "GCOMM...7RST";
  status = pending;
  start_time = "2026-05-25T00:00:00Z";
  end_time = "2026-06-01T00:00:00Z";
  snapshot_ledger = 61402776;
  for_votes = 0;
  against_votes = 0;
  abstain_votes = 0;
  quorum_required = 500000;
  actions = action "Update quorum parameter" "CCGOV_V2...X7QP" "set_quorum_bps" ∷ [];
  votes = [];
  category = "Governance";
}

abbrev pub qip_008 : Proposal
qip_008 = record {
  id = "QIP-008";
  title = "Fund Security Audit by Trail of Bits";
  description =
      "This proposal allocates 120,000 XLM from the Quorum Security Reserve for a comprehensive security audit of the Quorum v2 governance contracts and lending protocol by Trail of Bits.\n\nThe protocol has grown significantly in TVL ($8.2M) and warrants a second opinion. The audit report will be published publicly.";
  proposer = "GSEC...1UVW";
  status = failed;
  start_time = "2026-03-15T00:00:00Z";
  end_time = "2026-03-22T00:00:00Z";
  snapshot_ledger = 60551004;
  for_votes = 390000;
  against_votes = 620000;
  abstain_votes = 90000;
  quorum_required = 500000;
  actions =
      action "Transfer 120,000 XLM to Trail of Bits escrow" "CCTREASURY...M2NK" "transfer" ∷ [];
  votes =
      vote "GXYZ...9ABC" against 320000 "2026-03-15T11:00:00Z"
      ∷ vote "GDEF...1GHI" for 200000 "2026-03-16T09:00:00Z"
      ∷ vote "GJKL...3MNO" against 300000 "2026-03-17T14:00:00Z"
      ∷ [];
  category = "Security";
}

abbrev pub proposals : List Proposal
proposals = qip_001 ∷ qip_002 ∷ qip_003 ∷ qip_004 ∷ qip_005 ∷ qip_006 ∷ qip_007 ∷ qip_008 ∷ []
