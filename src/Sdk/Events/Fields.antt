-- ===== src/Sdk/Events/Fields.antt =====
-- The raw events of sdk/src/events.ts and how one field of their struct is read.
use text.Mathlib.Text.{◌==◌ as same_text}
use stellar_quorum.Base.{ℕ, String, Option, none, some, List, [], ◌∷◌, if◌then◌else◌}
use stellar_quorum.Base.Result.{Result, ok, err, ◌>>=◌}
use stellar_quorum.Base.Text.{◌<>◌}

-- What `scValToNative` gives for a field. A list is its first entry.
pub data Value : Type 0 where
  words : String → Value
  big : ℕ → Value
  number : ℕ → Value
  empty_list : Value
  list_of : Value → Value
  other : Value

-- A key whose value is `null` or `undefined` is left out.
abbrev pub Struct : Type 0
Struct = List (String × Value)

-- A topic entry: a string, a symbol or string of the contract with its native form, if that is a
-- string, or anything else.
pub data Topic : Type 0 where
  plain : String → Topic
  symbol : Option String → Topic
  string : Option String → Topic
  unnamed : Topic

-- What `scValToNative` makes of the event's value: it throws, or it gives a struct or something else.
pub data EventValue : Type 0 where
  undecodable : String → EventValue
  fields : Struct → EventValue
  no_struct : EventValue

-- `topic` is the first entry, if there is one.
pub record RawContractEvent : Type 0 where
  pub topic : Option Topic
  pub value : EventValue

pub record EventDecodeError : Type 0 where
  pub topic : String
  pub message : String

abbrev decode_error : String → String → EventDecodeError
decode_error topic detail = record {
  topic = topic;
  message = "Cannot decode \"" <> topic <> "\" event: " <> detail;
}

unfoldable pub topic_name : Option Topic → Option String
topic_name none = none
topic_name (some (plain s)) = some s
topic_name (some (symbol name)) = name
topic_name (some (string name)) = name
topic_name (some unnamed) = none

unfoldable pub struct : EventValue → String → Result EventDecodeError Struct
struct (undecodable why) topic = err (decode_error topic ("value is not decodable (" <> why <> ")"))
struct (fields raw) topic = ok raw
struct no_struct topic = err (decode_error topic "value is not a struct")

unfoldable pub value_at : String → Struct → Option Value
value_at key [] = none
value_at key ((k, v) ∷ raw) = if same_text k key then some v else value_at key raw

abbrev pub required : Option Value → String → String → Result EventDecodeError Value
required none key topic = err (decode_error topic ("missing field \"" <> key <> "\""))
required (some v) key topic = ok v

unfoldable pub field : Struct → String → String → Result EventDecodeError Value
field raw key topic = required (value_at key raw) key topic

abbrev pub variant_name : Value → String → String → Result EventDecodeError String
variant_name (list_of (words name)) key topic = ok name
variant_name (words name) key topic = ok name
variant_name _ key topic =
    err (decode_error topic ("field \"" <> key <> "\" is not a unit enum variant"))

unfoldable pub unit_variant : Struct → String → String → Result EventDecodeError String
unit_variant raw key topic = do value ← field raw key topic; variant_name value key topic
