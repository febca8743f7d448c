-- ===== src/Sdk/Events.antt =====
-- sdk/src/events.ts: the decoders of the contracts' events.
-- `field<T>` casts without a test, so a decoded field is any value that the struct held.
pub mod Fields
pub mod Published
pub mod Errors
pub mod Feed
mod Tests
use text.Mathlib.Text.{◌==◌ as same_text}
use stellar_quorum.Base.{String, Option, none, some, List, [], ◌∷◌, if◌then◌else◌}
use stellar_quorum.Base.Result.{Result, ok, err, ◌>>=◌}
use Fields.{
  Value, Topic, Struct, RawContractEvent, EventDecodeError, topic_name, struct, field, unit_variant,
}

pub data EventType : Type 0 where
  proposal_created vote_cast proposal_finalized proposal_queued proposal_executed : EventType
  proposal_cancelled transfer mint burn approve admin_transferred delegated : EventType
  contract_initialized contract_paused contract_unpaused : EventType

-- The fields in the order of the interfaces.
pub data QuorumEvent : Type 0 where
  proposal_created :
      (id proposer title start_ledger end_ledger quorum_required : Value) → QuorumEvent
  vote_cast : (proposal_id voter support voting_power : Value) → QuorumEvent
  proposal_finalized :
      (id : Value)
      → (status : String) → (for_votes against_votes abstain_votes : Value) → QuorumEvent
  proposal_queued : (id queue_ledger : Value) → QuorumEvent
  proposal_executed : (id : Value) → QuorumEvent
  proposal_cancelled : (id caller : Value) → QuorumEvent
  transfer : (source to amount : Value) → QuorumEvent
  mint : (to amount total_supply : Value) → QuorumEvent
  burn : (source amount total_supply : Value) → QuorumEvent
  approve : (owner spender amount expiration_ledger : Value) → QuorumEvent
  admin_transferred : (previous_admin new_admin : Value) → QuorumEvent
  delegated : (delegator delegatee : Value) → QuorumEvent
  contract_initialized :
      (admin guardian token quorum_bps voting_period timelock_period : Value)
      → (execution_grace_period proposal_threshold : Value) → QuorumEvent
  contract_paused : (caller : Value) → QuorumEvent
  contract_unpaused : (caller : Value) → QuorumEvent

-- `EVENT_TOPICS`, with the type that each name is.
abbrev pub event_topics : List (String × EventType)
event_topics =
    ("proposal_created", EventType.proposal_created)
    ∷ ("vote_cast", EventType.vote_cast)
    ∷ ("proposal_finalized", EventType.proposal_finalized)
    ∷ ("proposal_queued", EventType.proposal_queued)
    ∷ ("proposal_executed", EventType.proposal_executed)
    ∷ ("proposal_cancelled", EventType.proposal_cancelled)
    ∷ ("transfer", EventType.transfer)
    ∷ ("mint", EventType.mint)
    ∷ ("burn", EventType.burn)
    ∷ ("approve", EventType.approve)
    ∷ ("admin_transferred", EventType.admin_transferred)
    ∷ ("delegated", EventType.delegated)
    ∷ ("contract_initialized", EventType.contract_initialized)
    ∷ ("contract_paused", EventType.contract_paused)
    ∷ ("contract_unpaused", EventType.contract_unpaused)
    ∷ []

unfoldable pub type_named : String → List (String × EventType) → Option EventType
type_named name [] = none
type_named name ((n, t) ∷ more) = if same_text n name then some t else type_named name more

-- The `switch` on a topic that the SDK knows.
unfoldable pub decode_struct : EventType → Struct → String → Result EventDecodeError QuorumEvent
decode_struct EventType.delegated raw topic = do
  delegator ← field raw "delegator" topic
  delegatee ← field raw "delegatee" topic
  ok (delegated delegator delegatee)
decode_struct EventType.contract_initialized raw topic = do
  admin ← field raw "admin" topic
  guardian ← field raw "guardian" topic
  token ← field raw "token" topic
  quorum_bps ← field raw "quorum_bps" topic
  voting_period ← field raw "voting_period" topic
  timelock_period ← field raw "timelock_period" topic
  execution_grace_period ← field raw "execution_grace_period" topic
  proposal_threshold ← field raw "proposal_threshold" topic
  ok (
      contract_initialized admin guardian token quorum_bps voting_period timelock_period
        execution_grace_period proposal_threshold)
decode_struct EventType.contract_paused raw topic = do
  caller ← field raw "caller" topic
  ok (contract_paused caller)
decode_struct EventType.contract_unpaused raw topic = do
  caller ← field raw "caller" topic
  ok (contract_unpaused caller)
decode_struct EventType.proposal_created raw topic = do
  id ← field raw "id" topic
  proposer ← field raw "proposer" topic
  title ← field raw "title" topic
  start_ledger ← field raw "start_ledger" topic
  end_ledger ← field raw "end_ledger" topic
  quorum_required ← field raw "quorum_required" topic
  ok (proposal_created id proposer title start_ledger end_ledger quorum_required)
decode_struct EventType.vote_cast raw topic = do
  proposal_id ← field raw "proposal_id" topic
  voter ← field raw "voter" topic
  support ← field raw "support" topic
  voting_power ← field raw "voting_power" topic
  ok (vote_cast proposal_id voter support voting_power)
decode_struct EventType.proposal_finalized raw topic = do
  id ← field raw "id" topic
  status ← unit_variant raw "status" topic
  for_votes ← field raw "for_votes" topic
  against_votes ← field raw "against_votes" topic
  abstain_votes ← field raw "abstain_votes" topic
  ok (proposal_finalized id status for_votes against_votes abstain_votes)
decode_struct EventType.proposal_queued raw topic = do
  id ← field raw "id" topic
  queue_ledger ← field raw "queue_ledger" topic
  ok (proposal_queued id queue_ledger)
decode_struct EventType.proposal_executed raw topic = do
  id ← field raw "id" topic
  ok (proposal_executed id)
decode_struct EventType.proposal_cancelled raw topic = do
  id ← field raw "id" topic
  caller ← field raw "caller" topic
  ok (proposal_cancelled id caller)
decode_struct EventType.transfer raw topic = do
  source ← field raw "from" topic
  to ← field raw "to" topic
  amount ← field raw "amount" topic
  ok (transfer source to amount)
decode_struct EventType.mint raw topic = do
  to ← field raw "to" topic
  amount ← field raw "amount" topic
  total_supply ← field raw "total_supply" topic
  ok (mint to amount total_supply)
decode_struct EventType.burn raw topic = do
  source ← field raw "from" topic
  amount ← field raw "amount" topic
  total_supply ← field raw "total_supply" topic
  ok (burn source amount total_supply)
decode_struct EventType.approve raw topic = do
  owner ← field raw "owner" topic
  spender ← field raw "spender" topic
  amount ← field raw "amount" topic
  expiration_ledger ← field raw "expiration_ledger" topic
  ok (approve owner spender amount expiration_ledger)
decode_struct EventType.admin_transferred raw topic = do
  previous_admin ← field raw "previous_admin" topic
  new_admin ← field raw "new_admin" topic
  ok (admin_transferred previous_admin new_admin)

abbrev pub decode_known :
    RawContractEvent → String → Option EventType → Result EventDecodeError (Option QuorumEvent)
decode_known event topic none = ok none
decode_known event topic (some type) = do
  raw ← struct event.value topic
  typed ← decode_struct type raw topic
  ok (some typed)

abbrev pub decode_topic :
    RawContractEvent → Option String → Result EventDecodeError (Option QuorumEvent)
decode_topic event none = ok none
decode_topic event (some topic) = decode_known event topic (type_named topic event_topics)

unfoldable pub decode_event : RawContractEvent → Result EventDecodeError (Option QuorumEvent)
decode_event event = decode_topic event (topic_name event.topic)

abbrev keep_typed : Option QuorumEvent → List QuorumEvent → List QuorumEvent
keep_typed none rest = rest
keep_typed (some e) rest = e ∷ rest

unfoldable pub decode_events : List RawContractEvent → Result EventDecodeError (List QuorumEvent)
decode_events [] = ok []
decode_events (event ∷ events) = do
  typed ← decode_event event
  rest ← decode_events events
  ok (keep_typed typed rest)
