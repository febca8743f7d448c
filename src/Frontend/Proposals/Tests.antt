-- ===== src/Frontend/Proposals/Tests.antt =====
-- Proposals as the user interface shows them.
use stellar_quorum.Base.{◌≡◌, refl, true, false, none, some, [], ◌∷◌}
use stellar_quorum.Base.Double.{number_of, unit_of, rounded}
use stellar_quorum.Base.Integer.{pos, negsuc, ◌+ℤ◌}
use stellar_quorum.Base.Result.{ok}
use stellar_quorum.Base.Text.{
  decimal, decimal_onto, strip_prefix, strip_by, read_number, digits_from,
}
use stellar_quorum.Sdk.Types as Chain
use stellar_quorum.Frontend.Proposals.Fixture.{qip_003}
use stellar_quorum.Frontend.Proposals.{
  Reads, Clock, proposal_id, padded, chain_id, ledger_time, to_ui_proposal, find_id,
  get_proposal_by_id,
}
use stellar_quorum.Frontend.Proposals.Ids.{get_proposal_by_id-shown}

seventh : proposal_id 7 ≡ "QIP-007"
unfolding proposal_id padded decimal decimal_onto
seventh = refl

long_id : proposal_id 1234 ≡ "QIP-1234"
unfolding proposal_id padded decimal decimal_onto
long_id = refl

no_id : chain_id "QIP-7a" ≡ none
unfolding chain_id strip_prefix strip_by read_number digits_from
no_id = refl

-- The first whole number that a double does not hold.
rounds_to_even : number_of 9007199254740993 ≡ 9007199254740992
unfolding number_of unit_of rounded
rounds_to_even = refl

abbrev clock : Clock
clock = record { now = 1000000; iso = λ t. elim t [ pos n ↦ decimal n | negsuc n ↦ "before 1970" ] }

-- Ten ledgers from now are fifty seconds.
ten_ledgers : ledger_time clock 100 110 ≡ "1050000"
unfolding ledger_time decimal decimal_onto ◌+ℤ◌
ten_ledgers = refl

from_fixture :
    get_proposal_by_id true
      (ok (record { all_proposals = ok []; proposal = λ n. ok none; latest_ledger = ok 0 }))
      clock
      "QIP-003"
    ≡ ok (some qip_003)
unfolding get_proposal_by_id find_id
from_fixture = refl

abbrev grant : Chain.Proposal
grant = record {
  id = 7;
  proposer = "GA";
  title = "Grant";
  description = "d";
  for_votes = 5;
  against_votes = 0;
  abstain_votes = 0;
  snapshot_ledger = 90;
  start_ledger = 100;
  end_ledger = 200;
  queue_ledger = 0;
  quorum_required = 3;
  status = Chain.active;
}

abbrev reads : Reads
reads = record {
  all_proposals = ok (grant ∷ []);
  proposal = λ n. ok (some grant);
  latest_ledger = ok 120;
}

get_proposal_by_id-shown_example :
    get_proposal_by_id false (ok reads) clock (to_ui_proposal clock 110 grant).id
    ≡ ok (some (to_ui_proposal clock 120 grant))
get_proposal_by_id-shown_example = get_proposal_by_id-shown reads clock grant 120 refl refl 110
