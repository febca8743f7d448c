-- ===== src/Frontend/Feed/Tests.antt =====
-- The feed at sample proposals.
use stellar_quorum.Base.{ℕ, String, ◌≡◌, refl, none, some, List, [], ◌∷◌, if◌then◌else◌}
use stellar_quorum.Base.Sort.{sort, insert}
use stellar_quorum.Base.Text.{has_prefix, strip_prefix, strip_by}
use stellar_quorum.Base.Text.Replace.{replace_all, flat_map}
use stellar_quorum.Frontend.Types.{Proposal, active}
use stellar_quorum.Frontend.Feed.{Dates, escape_xml, newest_first}
use stellar_quorum.Frontend.Feed.Xml.{
  is_xml_char, ends_data, read_data, are_xml_chars, line_ends, read_xml,
}
use stellar_quorum.Frontend.Feed.Escaping.{read_xml-escape_xml}

abbrev hours : String → ℕ
hours s = if has_prefix "12" s then 12 else if has_prefix "15" s then 15 else 0

abbrev dates : Dates
unfolding has_prefix strip_prefix strip_by
dates = record { time = hours; utc = λ s. s; now = "now" }

abbrev proposal : String → String → Proposal
proposal id start = record {
  id = id;
  title = "A & B <c>";
  description = "\"d\"";
  proposer = "GA";
  status = active;
  start_time = start;
  end_time = start;
  snapshot_ledger = 7;
  for_votes = 1;
  against_votes = 2;
  abstain_votes = 3;
  quorum_required = 4;
  actions = [];
  votes = [];
  category = "General";
}

abbrev three : List Proposal
three = proposal "1" "12" ∷ proposal "2" "15" ∷ proposal "3" "12" ∷ []

newest : newest_first dates three ≡ proposal "2" "15" ∷ proposal "1" "12" ∷ proposal "3" "12" ∷ []
unfolding newest_first sort insert has_prefix strip_prefix strip_by
newest = refl

escaped :
    escape_xml "<a href=\"x\">Q&A's</a>" ≡ "&lt;a href=&quot;x&quot;&gt;Q&amp;A&apos;s&lt;/a&gt;"
unfolding escape_xml replace_all flat_map
escaped = refl

-- A carriage return becomes a line feed, and a control character makes the feed no XML.
returned : read_xml (escape_xml "Q&A\r\n<b>\r") ≡ some "Q&A\n<b>\n"
unfolding read_xml read_data ends_data is_xml_char line_ends escape_xml replace_all flat_map
returned = refl

controlled : read_xml (escape_xml "a\u{1}") ≡ none
unfolding read_xml read_data ends_data is_xml_char line_ends escape_xml replace_all flat_map
controlled = refl

read_xml-escape_xml_example :
    read_xml (escape_xml "Q&A\r\n<b>")
    ≡ (if are_xml_chars "Q&A\r\n<b>" then some (line_ends "Q&A\r\n<b>") else none)
read_xml-escape_xml_example = read_xml-escape_xml "Q&A\r\n<b>"
