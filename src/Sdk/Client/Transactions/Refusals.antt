-- ===== src/Sdk/Client/Transactions/Refusals.antt =====
-- What the builders throw when the contract refuses the simulated transaction.
use stellar_quorum.Base.{ℕ, String, ◌≡◌, refl, ◌∙◌, Option, List, [], ◌∷◌, get_or}
use stellar_quorum.Base.Result.{Result, ok, err, traverse}
use stellar_quorum.Sdk.Types.{VoteSupport}
use stellar_quorum.Sdk.Errors.{Thrown}
use stellar_quorum.Sdk.Errors.Codes.{GovernanceError}
use stellar_quorum.Sdk.Client.SimulationErrors.{map_governance_simulation_error}
use stellar_quorum.Sdk.Client.SimulationErrors.Marks.{class_named}
use stellar_quorum.Sdk.Client.SimulationErrors.HostErrors.{IsRefusal, class-map_refusal}
use stellar_quorum.Sdk.Client.Transactions.{
  Native, address, u64, u32, Network, governance_call, build_governance_transaction, build_vote,
  build_finalize, build_execute, build_cancel, support_number,
}

-- The operations on a proposal that a wallet signs.
pub data ProposalCall : Type 0 where
  vote : String → VoteSupport → ProposalCall
  finalize : String → ProposalCall
  execute : String → ProposalCall
  cancel : String → ProposalCall

-- Whose account pays, and which values the contract is called with.
abbrev pub payer : ProposalCall → Option String → String
payer (vote voter s) source = get_or source voter
payer (finalize by) source = by
payer (execute by) source = by
payer (cancel caller) source = get_or source caller

abbrev pub method_of : ProposalCall → String
method_of (vote voter s) = "vote"
method_of (finalize by) = "finalize"
method_of (execute by) = "execute"
method_of (cancel caller) = "cancel"

abbrev pub values_of : ProposalCall → ℕ → List Native
values_of (vote voter s) id = address voter ∷ u64 id ∷ u32 (support_number s) ∷ []
values_of (finalize by) id = u64 id ∷ []
values_of (execute by) id = address by ∷ u64 id ∷ []
values_of (cancel caller) id = address caller ∷ u64 id ∷ []

module _ {Value Account Tx : Type 0} (net : Network Value Account Tx) (governance : String)
    (token : Option String) where
  abbrev pub build : ProposalCall → ℕ → Option String → Result Thrown String
  build (vote voter s) id source = build_vote net governance token voter id s source
  build (finalize by) id source = build_finalize net governance token by id
  build (execute by) id source = build_execute net governance token by id
  build (cancel caller) id source = build_cancel net governance token caller id source

  build-governance_call :
      (call : ProposalCall) (id : ℕ) (source : Option String)
      → build call id source
        ≡ governance_call net governance token
            (payer call source)
            (method_of call)
            (values_of call id)
  unfolding build_vote build_finalize build_execute build_cancel
  build-governance_call (vote voter s) id source = refl
  build-governance_call (finalize by) id source = refl
  build-governance_call (execute by) id source = refl
  build-governance_call (cancel caller) id source = refl

  abbrev pub HasClassOf : GovernanceError → Result Thrown String → Type 0
  HasClassOf e r = (t : Thrown) × (r ≡ err t) × (t.class ≡ class_named e)

  -- When the simulation of the vote, finalize, execute or cancel call, built from the payer's account
  -- with the call's arguments, is refused with an error of the governance contract (its code in the
  -- text, once or in a log of events too, with no other `#` and none of the words that the client looks
  -- for), the builder throws an instance of the class that bears the error's name, and a plain `Error`
  -- for an error whose name no class bears.
  pub build-refused :
      (call : ProposalCall) (id : ℕ) (source : Option String) (values : List Value)
      (account : Account) (t : Thrown) (e : GovernanceError)
      → traverse net.encode (values_of call id) ≡ ok values
      → net.account (payer call source) ≡ ok account
      → net.prepare (net.build account governance (method_of call) values) ≡ err t
      → IsRefusal t e
      → HasClassOf e (build call id source)
  unfolding governance_call build_governance_transaction
  build-refused call id source values account t e encoded found failed refused = (
    map_governance_simulation_error (method_of call) t,
    build-governance_call call id source ∙ rw (encoded, found, failed) refl,
    class-map_refusal (method_of call) t e refused,
  )
