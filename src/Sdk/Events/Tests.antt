-- ===== src/Sdk/Events/Tests.antt =====
-- Properties of the event decoders at inputs that meet their premises.
use stellar_quorum.Base.{◌≡◌, refl, none, some, List, [], ◌∷◌}
use stellar_quorum.Base.Result.{ok, err}
use stellar_quorum.Sdk.Events.Fields.{
  big, words, number, symbol, fields, no_struct, RawContractEvent, EventDecodeError, topic_name,
  struct, field, value_at,
}
use stellar_quorum.Sdk.Events.{
  QuorumEvent, proposal_created, proposal_finalized, event_topics, type_named, decode_struct,
  decode_event, decode_events,
}
use stellar_quorum.Sdk.Events.Published.{Unread, publish, decode_event-publish}
use stellar_quorum.Sdk.Events.Feed.{ours, foreign, Entry, feed, own, decode_events-feed}

abbrev finalized : QuorumEvent
finalized = proposal_finalized (big 7) "Passed" (big 10) (big 2) (big 0)

abbrev unread : Unread
unread = record { metadata_uri = words "ipfs://m"; executor = words "GE" }

abbrev made : QuorumEvent
made = proposal_created (big 7) (words "GA") (words "t") (number 11) (number 20) (big 4)

decode_event-publish_example : decode_event (publish unread made) ≡ ok (some made)
decode_event-publish_example = decode_event-publish unread made

abbrev short : RawContractEvent
short = record {
  topic = some (symbol (some "proposal_queued"));
  value = fields (("id", big 7) ∷ []);
}

abbrev queue_missing : EventDecodeError
queue_missing = record {
  topic = "proposal_queued";
  message = "Cannot decode \"proposal_queued\" event: missing field \"queue_ledger\"";
}

short_fails : decode_event short ≡ err queue_missing
unfolding decode_event topic_name type_named struct decode_struct field value_at
short_fails = refl

abbrev vetoed : RawContractEvent
vetoed = record { topic = some (symbol (some "proposal_vetoed")); value = no_struct }

vetoed_unknown : type_named "proposal_vetoed" event_topics ≡ none
unfolding type_named
vetoed_unknown = refl

abbrev entries : List Entry
entries = foreign vetoed ∷ ours unread finalized ∷ []

decode_events-feed_example : decode_events (feed entries) ≡ ok (own entries)
unfolding topic_name
decode_events-feed_example = decode_events-feed entries (vetoed_unknown, (tt, tt))
