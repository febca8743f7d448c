-- ===== src/Sdk/Client/Window/Tests.antt =====
-- Runs of the proposal listing, and its properties at inputs that meet their premises.
use stellar_quorum.Base.{
  ℕ, ◌+◌, String, ◌≡◌, ◌≢◌, refl, Option, none, some, List, [], ◌∷◌, ◌++◌, arith, inl, ◌==◌,
  if◌then◌else◌, map,
}
use stellar_quorum.Base.Number.{nat}
use stellar_quorum.Base.Result.{Result, ok, err, ◌>>=◌, traverse}
use stellar_quorum.Sdk.Types.{Proposal, queued}
use stellar_quorum.Sdk.Errors.{Thrown}
use stellar_quorum.Sdk.Client.Decoding.{
  RawProposal, get_proposal_request, decode_proposal, decode_status, status_named,
}
use stellar_quorum.Sdk.Client.Window.{
  get_all_proposals, get_proposals_by_status, fetch_proposal_window, read_window, ids_from, present,
}
use stellar_quorum.Sdk.Client.Window.Pages.{pages_tile}
use stellar_quorum.Sdk.Client.Window.Failures.{everything, all_proposals_with_unknown_status}

abbrev raw_with : String → ℕ → RawProposal
raw_with status id = record {
  id = id;
  proposer = "GA";
  title = "t";
  description = "d";
  for_votes = 5;
  against_votes = 1;
  abstain_votes = 0;
  snapshot_ledger = 10;
  start_ledger = 11;
  end_ledger = 20;
  queue_ledger = 0;
  quorum_required = 4;
  status = status;
}

abbrev raw_proposal : ℕ → Result Thrown RawProposal
raw_proposal id = ok (raw_with (if id == 3 then "Vetoed" else "Active") id)

abbrev five : Result Thrown ℕ
five = ok 5

abbrev found : ℕ → Result Thrown (Option Proposal)
found id = get_proposal_request (ok (raw_with "Queued" id))

abbrev ids_of : Result Thrown (List Proposal) → List ℕ
ids_of (ok ps) = map (λ (p : Proposal). p.id) ps
ids_of (err e) = []

window_ids : ids_of (fetch_proposal_window five found (nat 2) (some (nat 2))).result ≡ 3 ∷ 4 ∷ []
unfolding fetch_proposal_window read_window get_proposal_request decode_proposal decode_status
    status_named traverse ids_from present
window_ids = refl

by_status_ids :
    ids_of (get_proposals_by_status five found queued everything) ≡ 1 ∷ 2 ∷ 3 ∷ 4 ∷ 5 ∷ []
unfolding get_proposals_by_status read_window get_proposal_request decode_proposal decode_status
    status_named traverse ids_from present
by_status_ids = refl

pages_tile_example : (fetch_proposal_window five found (nat 1) none).result ≡ (do
  page ← (fetch_proposal_window five found (nat 1) (some (nat 2))).result
  rest ← (fetch_proposal_window five found (nat (1 + 2)) none).result
  ok (page ++ rest))
pages_tile_example = pages_tile five found 5 1 2 refl

all_proposals_with_unknown_status_example :
    (get_all_proposals five (λ i. get_proposal_request (raw_proposal i)) everything).result ≢ ok []
all_proposals_with_unknown_status_example =
    all_proposals_with_unknown_status five raw_proposal 5 3 (raw_with "Vetoed" 3) [] refl
      (omega arith) (omega arith) refl (inl refl)
