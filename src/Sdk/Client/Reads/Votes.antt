-- ===== src/Sdk/Client/Reads/Votes.antt =====
-- `hasVoted` behind `getVote`, and `getProposal` of an id that the contract does not know.
use stellar_quorum.Base.{
  ℕ, ◌+◌, ◌<◌, String, ◌≡◌, refl, ap, true, Option, none, some, List, [], ◌∷◌, ltb, is_some, arith,
}
use stellar_quorum.Base.Result.{Result, ok, err}
use stellar_quorum.Sdk.Types.{ReadOptions, get_vote}
use stellar_quorum.Sdk.Errors.{Thrown, parse_governance_error}
use stellar_quorum.Sdk.Errors.Codes.{GovernanceError, governance_code}
use stellar_quorum.Sdk.Errors.Parsing.{IsHostError, parse_governance_error-governance_code}
use stellar_quorum.Sdk.Cache.{ReadCache, Started, hit, reserved, plain, start_read, settle_ok}
use stellar_quorum.Sdk.Cache.Key.{Argument, bigint, text}
use stellar_quorum.Sdk.Cache.Hits.{read_after_settle_ok}
use stellar_quorum.Sdk.Client.Decoding.{get_proposal_request, null_if_not_found, is_not_found}
use stellar_quorum.Sdk.Client.Reads.{
  failed, simulated, simulation_error, finish, read_through, get_vote_through, has_voted,
  is_not_null,
}

finish-hit :
    {V : Type 0} (now : ℕ) (request : Result Thrown V) (p : Started V × ReadCache V) (r : Option V)
    → p.0 ≡ hit r
    → ((finish now request p).answer ≡ ok r) × ((finish now request p).requests ≡ 0)
finish-hit now request (s, c) r h = rw h (refl, refl)

abbrev vote_arguments : ℕ → String → List Argument
vote_arguments id voter = bigint id ∷ text voter ∷ []

-- After `getVote` has read and cached a voter's choice, `hasVoted` for the same proposal and voter
-- answers from it, without a request, up to the expiry of the entry.
pub has_voted-after_get_vote :
    (clock later : ℕ → ℕ) (now then id : ℕ) (voter : String) (o : ReadOptions) (v : Option ℕ)
    (request : Result Thrown (Option ℕ)) (c c' : ReadCache (Option ℕ)) (k : String) (token ttl : ℕ)
    → start_read clock get_vote (vote_arguments id voter) o c ≡ (reserved k token ttl, c')
    → later 0 < now + ttl
    → (has_voted later then id voter plain request
          (get_vote_through clock now id voter o (ok v) c).cache
        ≡ ok (is_some v))
      × ((get_vote_through later then id voter plain request
            (get_vote_through clock now id voter o (ok v) c).cache).requests
          ≡ 0)
unfolding has_voted get_vote_through read_through
has_voted-after_get_vote clock later now then id voter o v request c c' k token ttl reads in_time =
    let arguments = vote_arguments id voter in
    let fresh : ltb (later 0) (now + ttl) ≡ true = ground arith in
    let again =
      rw fresh at
        (read_after_settle_ok clock later get_vote arguments o c c' k token ttl now v reads) in
    let known =
      finish-hit then request
        (start_read later get_vote arguments plain (settle_ok now v k token ttl c')) (some v)
        again in
    rw reads (ap is_not_null known.0, known.1)

null_if_not_found-err :
    (t : Thrown)
    → parse_governance_error t ≡ some GovernanceError.proposal_not_found
    → null_if_not_found (err t) ≡ ok none
null_if_not_found-err t h = let found = ap is_not_found h in rw found refl

-- When the simulation of `get_proposal` fails with the contract's ProposalNotFound, `getProposal`
-- gives `null`.
pub get_proposal_request-not_found :
    (detail : String)
    → IsHostError
        (simulation_error "get_proposal" detail)
        (governance_code GovernanceError.proposal_not_found)
    → get_proposal_request (simulated "get_proposal" (failed detail)) ≡ ok none
unfolding get_proposal_request simulated
get_proposal_request-not_found detail h =
    null_if_not_found-err (simulation_error "get_proposal" detail) (
      parse_governance_error-governance_code (simulation_error "get_proposal" detail)
        GovernanceError.proposal_not_found h)
