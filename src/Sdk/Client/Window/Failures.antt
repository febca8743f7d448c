-- ===== src/Sdk/Client/Window/Failures.antt =====
-- What one proposal that cannot be decoded does to the listing it is part of.
use stellar_quorum.Base.{
  ℕ, zero, suc, ◌+◌, ◌-◌, ◌≤◌, ◌<◌, ◌≡◌, ◌≢◌, refl, ap, ◌∙◌, String, Option, none, List, ◌∷◌, ◌++◌,
  arith, ◌⊎◌, inl, inr, leb, false, sym,
}
use stellar_quorum.Base.Text.{◌<>◌, strip_prefix}
use stellar_quorum.Base.Result.{Result, ok, err, ◌>>=◌, >>=-eq-ok, traverse, traverse-ne-ok}
use stellar_quorum.Sdk.Types.{Proposal, GetProposalsOptions}
use stellar_quorum.Sdk.Errors.{
  Thrown, instance_of, error, parse_governance_error, contract_error_code, contract_error_code_in,
  code_here, text_of,
}
use stellar_quorum.Sdk.Client.Decoding.{
  RawProposal, get_proposal_request, decode_proposal, decode_status, status_named,
}
use stellar_quorum.Sdk.Client.Window.{get_all_proposals, read_window, ids_from, present}
use stellar_quorum.Sdk.Client.Window.Pages.{ids_from-add, fetch_rest}

abbrev unknown_status : String → Thrown
unknown_status name = instance_of error ("Unknown ProposalStatus variant: " <> name)

request_vetoed :
    (r : RawProposal)
    → r.status ≡ "Vetoed"
    → get_proposal_request (ok r) ≡ err (unknown_status "Vetoed")
unfolding get_proposal_request decode_proposal decode_status status_named parse_governance_error
    contract_error_code contract_error_code_in code_here text_of strip_prefix
request_vetoed r e = rw e refl

request_expired :
    (r : RawProposal)
    → r.status ≡ "Expired"
    → get_proposal_request (ok r) ≡ err (unknown_status "Expired")
unfolding get_proposal_request decode_proposal decode_status status_named parse_governance_error
    contract_error_code contract_error_code_in code_here text_of strip_prefix
request_expired r e = rw e refl

request_fails :
    (r : RawProposal)
    → (r.status ≡ "Vetoed") ⊎ (r.status ≡ "Expired")
    → (e : Thrown) × (get_proposal_request (ok r) ≡ err e)
request_fails r (inl h) = (unknown_status "Vetoed", request_vetoed r h)
request_fails r (inr h) = (unknown_status "Expired", request_expired r h)

ids_from-split :
    (total id : ℕ)
    → 0 < id
    → id ≤ total
    → ids_from 1 total ≡ ids_from 1 (id - 1) ++ id ∷ ids_from (suc id) (total - id)
unfolding ids_from
ids_from-split total zero pos le = absurd (omega arith)
ids_from-split total (suc k) pos le =
    let len : total ≡ k + suc (total - suc k) = omega arith in
    let next : 1 + k ≡ suc k = omega arith in
    let before : k ≡ suc k - 1 = omega arith in
    ap (ids_from 1) len
    ∙ ids_from-add 1 k (suc (total - suc k))
    ∙ ap (λ j. ids_from 1 k ++ ids_from j (suc (total - suc k))) next
    ∙ ap (λ j. ids_from 1 j ++ ids_from (suc k) (suc (total - suc k))) before

abbrev pub everything : GetProposalsOptions
everything = record {
  read_options = record { bypass_cache = false; invalidate_cache = false };
  limit = none;
  offset = none;
}

all_from_one :
    (count : Result Thrown ℕ) (proposal : ℕ → Result Thrown (Option Proposal)) (total : ℕ)
    → count ≡ ok total
    → 0 < total
    → (get_all_proposals count proposal everything).result
      ≡ (do ps ← traverse proposal (ids_from 1 total); ok (present ps))
unfolding get_all_proposals read_window
all_from_one count proposal total counted pos =
    let some_left : leb total 0 ≡ false = ground arith in
    let len : total - 0 ≡ total = omega arith in
    rw (fetch_rest count proposal total 0 counted, some_left, len) refl

-- When the contract holds a proposal whose status is `Vetoed` or `Expired`, getAllProposals() gives
-- no list at all, whatever the other proposals are.
pub all_proposals_with_unknown_status :
    (count : Result Thrown ℕ) (raw : ℕ → Result Thrown RawProposal) (total id : ℕ) (r : RawProposal)
    (ps : List Proposal)
    → count ≡ ok total
    → 0 < id
    → id ≤ total
    → raw id ≡ ok r
    → (r.status ≡ "Vetoed") ⊎ (r.status ≡ "Expired")
    → (get_all_proposals count (λ i. get_proposal_request (raw i)) everything).result ≢ ok ps
all_proposals_with_unknown_status count raw total id r ps counted pos le held status = λ h.
    let proposal : ℕ → Result Thrown (Option Proposal) = λ i. get_proposal_request (raw i) in
    let (e, fails) = request_fails r status in
    let answer = all_from_one count proposal total counted (omega arith) in
    let (qs, found, _) =
      >>=-eq-ok (traverse proposal (ids_from 1 total)) (λ l. ok (present l)) (sym answer ∙ h) in
    traverse-ne-ok proposal (ids_from 1 (id - 1)) (ids_from (suc id) (total - id)) id e qs
      (ap get_proposal_request held ∙ fails)
      (ap (traverse proposal) (sym (ids_from-split total id pos le)) ∙ found)
