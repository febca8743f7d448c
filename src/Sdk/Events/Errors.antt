-- ===== src/Sdk/Events/Errors.antt =====
-- Which events decoding refuses, and which it passes over.
use stellar_quorum.Base.{String, ◌≡◌, ◌≢◌, sym, ap, ◌∙◌, Option, none, some, inl, inr, Option-cases}
use stellar_quorum.Base.Result.{Result, ok, err, ◌>>=◌}
use stellar_quorum.Sdk.Events.Fields.{
  Value, words, big, number, empty_list, list_of, other, Struct, EventValue, fields, undecodable,
  no_struct, RawContractEvent, EventDecodeError, topic_name, struct, field, value_at, unit_variant,
  required, variant_name,
}
use stellar_quorum.Sdk.Events.{
  EventType, event_topics, type_named, decode_struct, decode_known, decode_event,
}

-- Every error of the computation is about `topic`.
record BlamesOnly {A : Type 0} (topic : String) (m : Result EventDecodeError A) : Type 0 where
  blame : (e : EventDecodeError) → m ≡ err e → e.topic ≡ topic

blameless : {A : Type 0} {topic : String} (a : A) → BlamesOnly topic (ok a)
blameless a = record { blame = λ e h. cc }

blamed : {A : Type 0} (e : EventDecodeError) → BlamesOnly {A = A} e.topic (err e)
blamed {A} e = record { blame = λ d h. cc }

bind-BlamesOnly :
    {A B : Type 0} (topic : String) (m : Result EventDecodeError A)
    (f : A → Result EventDecodeError B)
    → BlamesOnly topic m
    → ((a : A) → BlamesOnly topic (f a))
    → BlamesOnly topic (m >>= f)
bind-BlamesOnly topic (ok a) f h k = k a
bind-BlamesOnly topic (err e) f h k = record {
  blame = λ d failed. let same : e ≡ d = cc in h.blame d (ap err same);
}

required-BlamesOnly :
    (o : Option Value) (key topic : String) → BlamesOnly topic (required o key topic)
required-BlamesOnly none key topic = blamed _
required-BlamesOnly (some v) key topic = blameless v

field-BlamesOnly : (raw : Struct) (key topic : String) → BlamesOnly topic (field raw key topic)
unfolding field
field-BlamesOnly raw key topic = required-BlamesOnly (value_at key raw) key topic

struct-BlamesOnly : (v : EventValue) (topic : String) → BlamesOnly topic (struct v topic)
unfolding struct
struct-BlamesOnly (undecodable why) topic = blamed _
struct-BlamesOnly (fields raw) topic = blameless raw
struct-BlamesOnly no_struct topic = blamed _

variant_name-BlamesOnly :
    (v : Value) (key topic : String) → BlamesOnly topic (variant_name v key topic)
variant_name-BlamesOnly (words name) key topic = blameless name
variant_name-BlamesOnly (big n) key topic = blamed _
variant_name-BlamesOnly (number n) key topic = blamed _
variant_name-BlamesOnly empty_list key topic = blamed _
variant_name-BlamesOnly (list_of (words name)) key topic = blameless name
variant_name-BlamesOnly (list_of (big n)) key topic = blamed _
variant_name-BlamesOnly (list_of (number n)) key topic = blamed _
variant_name-BlamesOnly (list_of empty_list) key topic = blamed _
variant_name-BlamesOnly (list_of (list_of v)) key topic = blamed _
variant_name-BlamesOnly (list_of other) key topic = blamed _
variant_name-BlamesOnly other key topic = blamed _

unit_variant-BlamesOnly :
    (raw : Struct) (key topic : String) → BlamesOnly topic (unit_variant raw key topic)
unfolding unit_variant
unit_variant-BlamesOnly raw key topic =
    bind-BlamesOnly topic (field raw key topic) _ (field-BlamesOnly raw key topic)
      (λ v. variant_name-BlamesOnly v key topic)

after :
    {A : Type 0} {topic : String} {f : Value → Result EventDecodeError A} (raw : Struct)
    (key : String)
    → ((v : Value) → BlamesOnly topic (f v))
    → BlamesOnly topic (field raw key topic >>= f)
after {A} {topic} {f} raw key k =
    bind-BlamesOnly topic (field raw key topic) f (field-BlamesOnly raw key topic) k

decode_struct-BlamesOnly :
    (type : EventType) (raw : Struct) (topic : String)
    → BlamesOnly topic (decode_struct type raw topic)
unfolding decode_struct
decode_struct-BlamesOnly EventType.proposal_created raw topic = after raw _ (λ _.
    after raw _ (λ _.
      after raw _ (λ _. after raw _ (λ _. after raw _ (λ _. after raw _ (λ _. blameless _))))))
decode_struct-BlamesOnly EventType.vote_cast raw topic =
    after raw _ (λ _. after raw _ (λ _. after raw _ (λ _. after raw _ (λ _. blameless _))))
decode_struct-BlamesOnly EventType.proposal_queued raw topic =
    after raw _ (λ _. after raw _ (λ _. blameless _))
decode_struct-BlamesOnly EventType.proposal_executed raw topic = after raw _ (λ _. blameless _)
decode_struct-BlamesOnly EventType.proposal_cancelled raw topic =
    after raw _ (λ _. after raw _ (λ _. blameless _))
decode_struct-BlamesOnly EventType.transfer raw topic =
    after raw _ (λ _. after raw _ (λ _. after raw _ (λ _. blameless _)))
decode_struct-BlamesOnly EventType.mint raw topic =
    after raw _ (λ _. after raw _ (λ _. after raw _ (λ _. blameless _)))
decode_struct-BlamesOnly EventType.burn raw topic =
    after raw _ (λ _. after raw _ (λ _. after raw _ (λ _. blameless _)))
decode_struct-BlamesOnly EventType.approve raw topic =
    after raw _ (λ _. after raw _ (λ _. after raw _ (λ _. after raw _ (λ _. blameless _))))
decode_struct-BlamesOnly EventType.admin_transferred raw topic =
    after raw _ (λ _. after raw _ (λ _. blameless _))
decode_struct-BlamesOnly EventType.delegated raw topic =
    after raw _ (λ _. after raw _ (λ _. blameless _))
decode_struct-BlamesOnly EventType.contract_initialized raw topic = after raw _ (λ _.
    after raw _ (λ _. after raw _ (λ _. after raw _ (λ _.
      after raw _ (λ _. after raw _ (λ _. after raw _ (λ _. after raw _ (λ _. blameless _))))))))
decode_struct-BlamesOnly EventType.contract_paused raw topic = after raw _ (λ _. blameless _)
decode_struct-BlamesOnly EventType.contract_unpaused raw topic = after raw _ (λ _. blameless _)
decode_struct-BlamesOnly EventType.proposal_finalized raw topic = after raw _ (λ _.
    bind-BlamesOnly topic (unit_variant raw "status" topic) _
      (unit_variant-BlamesOnly raw "status" topic)
      (λ _. after raw _ (λ _. after raw _ (λ _. after raw _ (λ _. blameless _)))))

known_error :
    {A : Type 0} (event : RawContractEvent) (topic : String) (type : EventType)
    (m : Result EventDecodeError A) (e : EventDecodeError)
    → topic_name event.topic ≡ some topic
    → type_named topic event_topics ≡ some type
    → BlamesOnly topic m
    → m ≡ err e
    → (topic_name event.topic ≡ some e.topic) × (type_named e.topic event_topics ≢ none)
known_error event topic type m e named known blame failed =
    let same = blame.blame e failed in
    (
      named ∙ ap some (sym same),
      λ unknown.
          let stuck : none ≡ some type =
            sym unknown ∙ ap (λ t. type_named t event_topics) same ∙ known in
          cc,
    )

-- An event that decoding throws on has a topic that the SDK knows, and the error names it. So an event
-- with any other topic is passed over, whatever its value is.
pub decode_event-eq-err :
    (event : RawContractEvent) (e : EventDecodeError)
    → decode_event event ≡ err e
    → (topic_name event.topic ≡ some e.topic) × (type_named e.topic event_topics ≢ none)
unfolding decode_event
decode_event-eq-err event e h = elim (Option-cases (topic_name event.topic)) [
  | inl nameless ↦ let passed = rw nameless at h in cc
  | inr (topic, named) ↦ elim (Option-cases (type_named topic event_topics)) [
    | inl unknown ↦ let passed = rw (named, unknown) at h in cc
    | inr (type, known) ↦
        known_error event topic type (decode_known event topic (some type)) e named known
          (bind-BlamesOnly topic (struct event.value topic) _ (struct-BlamesOnly event.value topic)
            (λ raw.
              bind-BlamesOnly topic (decode_struct type raw topic) _
                (decode_struct-BlamesOnly type raw topic) (λ typed. blameless _)))
          (rw (named, known) at h)
  ]
]
