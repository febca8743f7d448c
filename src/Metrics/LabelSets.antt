-- ===== src/Metrics/LabelSets.antt =====
-- The label sets of metrics.js: how they are compared, and how Prometheus' text format writes them.
pub mod Escaping
use Prim.Native.Nat.{Ordering}
use Prim.Native.String.{compare}
use stellar_quorum.Base.{String, Bool, true, false, List, [], ◌∷◌}
use stellar_quorum.Base.Sort.{sort}
use stellar_quorum.Base.Text.{◌<>◌}
use stellar_quorum.Base.Text.Replace.{replace_all}
use stellar_quorum.Sdk.Cache.EntryMap.{Entries}
use stellar_quorum.Sdk.Cache.Key.{json_text}

-- The properties of an object, in the order of their first assignment.
abbrev pub Labels : Type 0
Labels = Entries String

unfoldable pub escape_label_value : String → String
escape_label_value value =
    replace_all 34 "\\\"" (replace_all 10 "\\n" (replace_all 92 "\\\\" value))

abbrev written : String × String → String
written (key, value) = key <> "=\"" <> escape_label_value value <> "\""

abbrev written_after : Labels → String
written_after [] = ""
written_after (entry ∷ more) = "," <> written entry <> written_after more

unfoldable pub format_labels : Labels → String
format_labels [] = ""
format_labels (entry ∷ more) = "{" <> written entry <> written_after more <> "}"

abbrev sorts_after : String × String → String × String → Bool
sorts_after (j, _) (k, _) = elim (compare j k) [ Ordering.gt ↦ true | _ ↦ false ]

abbrev json_pair : String × String → String
json_pair (key, value) = "[" <> json_text key <> "," <> json_text value <> "]"

abbrev json_pairs_after : Labels → String
json_pairs_after [] = "]"
json_pairs_after (entry ∷ more) = "," <> json_pair entry <> json_pairs_after more

abbrev json_pairs : Labels → String
json_pairs [] = "[]"
json_pairs (entry ∷ more) = "[" <> json_pair entry <> json_pairs_after more

unfoldable pub label_key : Labels → String
label_key labels = json_pairs (sort sorts_after labels)
