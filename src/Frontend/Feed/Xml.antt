-- ===== src/Frontend/Feed/Xml.antt =====
-- A reader of the character data of an XML document, as in the feed of frontend/app/feed.xml/route.ts.
use Prim.Native.Char.{Char, code}
use Prim.Native.String.{[], ◌∷◌}
use text.Mathlib.Text.{◌==◌ as same_text}
use stellar_quorum.Base.{
  leb, not, true, false, Bool, ◌&&◌, ◌||◌, String, Option, none, some, ◌==◌, if◌then◌else◌,
}
use stellar_quorum.Base.Text.{◌<>◌}
use stellar_quorum.Base.Text.Replace.{before}

-- The five entities that XML itself names.
abbrev pub entity : String → Option Char
entity name =
    if same_text name "amp"
    then some "&"
    else if same_text name "lt"
    then some "<"
    else if same_text name "gt"
    then some ">"
    else if same_text name "quot"
    then some "\""
    else if same_text name "apos"
    then some "'"
    else none

-- The production `Char` of XML.
unfoldable pub is_xml_char : Char → Bool
is_xml_char c =
    code c == 9
    || code c == 10
    || code c == 13
    || leb 32 (code c) && leb (code c) 55295
    || leb 57344 (code c) && leb (code c) 65533
    || leb 65536 (code c) && leb (code c) 1114111

unfoldable pub are_xml_chars : String → Bool
are_xml_chars [] = true
are_xml_chars (c ∷ cs) = is_xml_char c && are_xml_chars cs

abbrev pub starts_line_feed : String → Bool
starts_line_feed [] = false
starts_line_feed (c ∷ cs) = code c == 10

-- The line ends as a reader of XML sees them: a carriage return, with a line feed behind it or not,
-- is one line feed.
unfoldable pub line_ends : String → String
line_ends [] = []
line_ends (c ∷ cs) =
    let rest = line_ends cs in
    let broken = if starts_line_feed cs then rest else "\n" ∷ rest in
    if code c == 13 then broken else c ∷ rest

-- A reader of character data: what of the name of a reference has been read, if one is open. An angle
-- bracket ends the data, also a closing one, which XML forbids in `]]>`; a character that is none of
-- XML is an error.
abbrev pub referred : Option Char → Option String → Option String
referred none rest = none
referred (some c) rest = before c rest

unfoldable pub ends_data : Char → Bool
ends_data c = not (is_xml_char c) || code c == 60 || code c == 62

unfoldable pub read_data : Option String → String → Option String
read_data none [] = some []
read_data (some name) [] = none
read_data none (c ∷ cs) =
    let reference = read_data (some []) cs in
    let plain = before c (read_data none cs) in
    if ends_data c then none else if code c == 38 then reference else plain
read_data (some name) (c ∷ cs) =
    let after = referred (entity name) (read_data none cs) in
    let longer = read_data (some (name <> (c ∷ []))) cs in if code c == 59 then after else longer

unfoldable pub read_xml : String → Option String
read_xml s = read_data none (line_ends s)
