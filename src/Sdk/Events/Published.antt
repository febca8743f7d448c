-- ===== src/Sdk/Events/Published.antt =====
-- The events of the kinds that sdk/src/events.ts knows, as the contracts publish them
-- (`env.events().publish`), and what decoding makes of them.
use stellar_quorum.Base.{String, ◌≡◌, refl, some, [], ◌∷◌}
use stellar_quorum.Base.Result.{ok}
use stellar_quorum.Sdk.Events.Fields.{
  Value, words, list_of, symbol, Struct, fields, RawContractEvent, topic_name, struct, field,
  value_at, unit_variant,
}
use stellar_quorum.Sdk.Events.{
  QuorumEvent, proposal_created, vote_cast, proposal_finalized, proposal_queued, proposal_executed,
  proposal_cancelled, transfer, mint, burn, approve, admin_transferred, delegated,
  contract_initialized, contract_paused, contract_unpaused, type_named, decode_struct, decode_event,
}

abbrev emitted : String → Struct → RawContractEvent
emitted topic raw = record { topic = some (symbol (some topic)); value = fields raw }

-- The fields of the contracts' structs that the SDK's events leave out: `metadata_uri` of
-- ProposalCreated and `executor` of ProposalExecuted (contracts/governance/src/lib.rs).
pub record Unread : Type 0 where
  pub metadata_uri : Value
  pub executor : Value

-- The topic and the struct of each event of a kind that the SDK has, with the keys in the order of a
-- contract's map, which is that of the symbols.
unfoldable pub publish : Unread → QuorumEvent → RawContractEvent
publish u (proposal_created id proposer title start end quorum) = emitted "proposal_created" (
    ("end_ledger", end)
    ∷ ("id", id)
    ∷ ("metadata_uri", u.metadata_uri)
    ∷ ("proposer", proposer)
    ∷ ("quorum_required", quorum)
    ∷ ("start_ledger", start)
    ∷ ("title", title)
    ∷ [])
publish u (vote_cast id voter support power) =
    emitted "vote_cast"
      (("proposal_id", id) ∷ ("support", support) ∷ ("voter", voter) ∷ ("voting_power", power) ∷ [])
publish u (proposal_finalized id status for against abstain) = emitted "proposal_finalized" (
    ("abstain_votes", abstain)
    ∷ ("against_votes", against)
    ∷ ("for_votes", for)
    ∷ ("id", id)
    ∷ ("status", list_of (words status))
    ∷ [])
publish u (proposal_queued id queue) =
    emitted "proposal_queued" (("id", id) ∷ ("queue_ledger", queue) ∷ [])
publish u (proposal_executed id) =
    emitted "proposal_executed" (("executor", u.executor) ∷ ("id", id) ∷ [])
publish u (proposal_cancelled id caller) =
    emitted "proposal_cancelled" (("caller", caller) ∷ ("id", id) ∷ [])
publish u (transfer source to amount) =
    emitted "transfer" (("amount", amount) ∷ ("from", source) ∷ ("to", to) ∷ [])
publish u (mint to amount supply) =
    emitted "mint" (("amount", amount) ∷ ("to", to) ∷ ("total_supply", supply) ∷ [])
publish u (burn source amount supply) =
    emitted "burn" (("amount", amount) ∷ ("from", source) ∷ ("total_supply", supply) ∷ [])
publish u (approve owner spender amount expiration) = emitted "approve" (
    ("amount", amount)
    ∷ ("expiration_ledger", expiration)
    ∷ ("owner", owner)
    ∷ ("spender", spender)
    ∷ [])
publish u (admin_transferred previous new) =
    emitted "admin_transferred" (("new_admin", new) ∷ ("previous_admin", previous) ∷ [])
publish u (delegated delegator delegatee) =
    emitted "delegated" (("delegatee", delegatee) ∷ ("delegator", delegator) ∷ [])
publish u (contract_initialized admin guardian token bps voting timelock grace threshold) =
    emitted "contract_initialized" (
      ("admin", admin)
      ∷ ("execution_grace_period", grace)
      ∷ ("guardian", guardian)
      ∷ ("proposal_threshold", threshold)
      ∷ ("quorum_bps", bps)
      ∷ ("timelock_period", timelock)
      ∷ ("token", token)
      ∷ ("voting_period", voting)
      ∷ [])
publish u (contract_paused caller) = emitted "contract_paused" (("caller", caller) ∷ [])
publish u (contract_unpaused caller) = emitted "contract_unpaused" (("caller", caller) ∷ [])

-- Each event of a kind that the SDK has, as a contract publishes it with all fields of its struct, is
-- decoded to the event with these fields, those that the SDK leaves out dropped. Of the contracts'
-- other events nothing is said.
pub decode_event-publish : (u : Unread) (e : QuorumEvent) → decode_event (publish u e) ≡ ok (some e)
unfolding decode_event publish type_named decode_struct topic_name struct field value_at
    unit_variant
decode_event-publish u (proposal_created id proposer title start end quorum) = refl
decode_event-publish u (vote_cast id voter support power) = refl
decode_event-publish u (proposal_finalized id status for against abstain) = refl
decode_event-publish u (proposal_queued id queue) = refl
decode_event-publish u (proposal_executed id) = refl
decode_event-publish u (proposal_cancelled id caller) = refl
decode_event-publish u (transfer source to amount) = refl
decode_event-publish u (mint to amount supply) = refl
decode_event-publish u (burn source amount supply) = refl
decode_event-publish u (approve owner spender amount expiration) = refl
decode_event-publish u (admin_transferred previous new) = refl
decode_event-publish u (delegated delegator delegatee) = refl
decode_event-publish u
      (contract_initialized admin guardian token bps voting timelock grace threshold) =
    refl
decode_event-publish u (contract_paused caller) = refl
decode_event-publish u (contract_unpaused caller) = refl
