-- ===== src/Frontend/Feed/Escaping.antt =====
-- What a reader of XML makes of the text that `escapeXml` of frontend/app/feed.xml/route.ts gives.
use Prim.Native.Char.{Char, code}
use Prim.Native.String.{[], ◌∷◌}
use stellar_quorum.Base.{
  ℕ, arith, leb, true, false, Bool, ◌&&◌, String, ◌≡◌, refl, ap, ◌∙◌, Bool-cases, inl, inr, Option,
  none, some, ◌==◌, if◌then◌else◌,
}
use stellar_quorum.Base.Text.Replace.{flat_map, onto, append-onto, before, same_before}
use stellar_quorum.Frontend.Feed.{escape_xml}
use stellar_quorum.Frontend.Feed.Xml.{
  is_xml_char, are_xml_chars, line_ends, read_data, read_xml, ends_data,
}
use stellar_quorum.Frontend.Feed.Entities.{xml_char, escape_xml-flat_map, xml_char-cases}
use stellar_quorum.Frontend.Feed.LineEnds.{line_ends-flat_map, are_xml_chars-line_ends}

abbrev if_valid : Bool → Option String → Option String
if_valid valid o = if valid then o else none

plain_char :
    (c : Char) (n : ℕ)
    → (code c == n) ≡ true
    → (leb 32 n && leb n 55295) ≡ true
    → is_xml_char c ≡ true
unfolding is_xml_char
plain_char c n h k = ground arith

-- A character that stands for another one, by a reference.
read_reference :
    (c d : Char) (rest : Option String)
    → (code c == code d) ≡ true
    → (leb 32 (code d) && leb (code d) 55295) ≡ true
    → before d rest ≡ if_valid (is_xml_char c) (before c rest)
read_reference c d rest h k = rw (plain_char c (code d) h k) (same_before c d rest h)

read_data-kept :
    (c : Char) (rest : String)
    → (code c == 38) ≡ false
    → (code c == 60) ≡ false
    → (code c == 62) ≡ false
    → read_data none (c ∷ rest) ≡ if_valid (is_xml_char c) (before c (read_data none rest))
unfolding read_data ends_data
read_data-kept c rest n1 n2 n3 = elim (Bool-cases (is_xml_char c)) [
  | inl valid ↦ rw (valid, n1, n2, n3) refl
  | inr bad ↦ rw bad refl
]

reads :
    (c : Char) (rest : String)
    → read_data none (onto (xml_char c) rest)
      ≡ if_valid (is_xml_char c) (before c (read_data none rest))
unfolding read_data ends_data is_xml_char
reads c rest =
    xml_char-cases
      (λ w.
        read_data none (onto w rest) ≡ if_valid (is_xml_char c) (before c (read_data none rest)))
      c (λ hit. read_reference c "&" (read_data none rest) hit refl)
      (λ hit. read_reference c "<" (read_data none rest) hit refl)
      (λ hit. read_reference c ">" (read_data none rest) hit refl)
      (λ hit. read_reference c "\"" (read_data none rest) hit refl)
      (λ hit. read_reference c "'" (read_data none rest) hit refl) (read_data-kept c rest)

before-if_valid :
    (c : Char) (a b : Bool) (s : String)
    → if_valid a (before c (if_valid b (some s))) ≡ if_valid (a && b) (some (c ∷ s))
before-if_valid c a b s = ground arith

read_data-flat_map :
    (s : String) → read_data none (flat_map xml_char s) ≡ if_valid (are_xml_chars s) (some s)
unfolding flat_map read_data are_xml_chars
read_data-flat_map [] = refl
read_data-flat_map (c ∷ cs) =
    ap (read_data none) (append-onto (xml_char c) (flat_map xml_char cs))
    ∙ reads c (flat_map xml_char cs)
    ∙ rw (read_data-flat_map cs) (before-if_valid c (is_xml_char c) (are_xml_chars cs) cs)

-- What an XML reader takes the escaped form of a text for: the text, whatever markup characters it
-- has, with each carriage return, alone or before a line feed, as a line feed; but if the text has a
-- character that XML does not allow, the escaped form is no XML.
pub read_xml-escape_xml :
    (s : String) → read_xml (escape_xml s) ≡ (if are_xml_chars s then some (line_ends s) else none)
unfolding read_xml
read_xml-escape_xml s =
    ap read_xml (escape_xml-flat_map s)
    ∙ ap (read_data none) (line_ends-flat_map s)
    ∙ read_data-flat_map (line_ends s)
    ∙ ap (λ b. if_valid b (some (line_ends s))) (are_xml_chars-line_ends s)
