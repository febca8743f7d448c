-- ===== src/Sdk/Events/Feed.antt =====
-- `decodeEvents` of sdk/src/events.ts on a feed that also carries other contracts' events.
use stellar_quorum.Base.{
  String, ◌≡◌, refl, Option, none, some, List, [], ◌∷◌, All, inl, inr, Option-cases,
}
use stellar_quorum.Base.Result.{ok}
use stellar_quorum.Sdk.Events.Fields.{RawContractEvent, topic_name}
use stellar_quorum.Sdk.Events.{QuorumEvent, event_topics, type_named, decode_event, decode_events}
use stellar_quorum.Sdk.Events.Published.{Unread, publish, decode_event-publish}

pub data Entry : Type 0 where
  ours : Unread → QuorumEvent → Entry
  foreign : RawContractEvent → Entry

unfoldable pub feed : List Entry → List RawContractEvent
feed [] = []
feed (ours u e ∷ more) = publish u e ∷ feed more
feed (foreign event ∷ more) = event ∷ feed more

unfoldable pub own : List Entry → List QuorumEvent
own [] = []
own (ours u e ∷ more) = e ∷ own more
own (foreign event ∷ more) = own more

-- The topic, if there is one, is none of the SDK's.
abbrev pub IsUnknown : Option String → Type 0
IsUnknown none = Unit
IsUnknown (some name) = type_named name event_topics ≡ none

abbrev pub HasUnknownTopic : Entry → Type 0
HasUnknownTopic (ours u e) = Unit
HasUnknownTopic (foreign event) = IsUnknown (topic_name event.topic)

decode_event_unknown :
    (event : RawContractEvent) → IsUnknown (topic_name event.topic) → decode_event event ≡ ok none
unfolding decode_event
decode_event_unknown event h = elim (Option-cases (topic_name event.topic)) [
  | inl nameless ↦ rw nameless refl
  | inr (name, named) ↦
      let unknown : type_named name event_topics ≡ none = rw named at h in rw (named, unknown) refl
]

-- A feed of the contracts' events of the SDK's kinds, among events whose topics the SDK does not know,
-- is decoded to the former, all of them, in their order.
pub decode_events-feed :
    (entries : List Entry)
    → All HasUnknownTopic entries
    → decode_events (feed entries) ≡ ok (own entries)
unfolding decode_events feed own
decode_events-feed [] h = refl
decode_events-feed (ours u e ∷ more) h =
    rw (decode_event-publish u e, decode_events-feed more h.1) refl
decode_events-feed (foreign event ∷ more) h =
    rw (decode_event_unknown event h.0, decode_events-feed more h.1) refl
