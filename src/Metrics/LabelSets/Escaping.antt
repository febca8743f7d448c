-- ===== src/Metrics/LabelSets/Escaping.antt =====
-- What a reader of Prometheus' text format makes of a label value.
use Prim.Native.Char.{Char, code}
use Prim.Native.String.{[], ◌∷◌}
use mathlib.Core.Path.{fun_ext}
use stellar_quorum.Base.{
  String, Bool, ◌≡◌, refl, ap, ◌∙◌, Bool-cases, inl, inr, Option, none, some, ◌==◌, true, false,
  if◌then◌else◌,
}
use stellar_quorum.Base.Text.Replace.{
  flat_map, swap, replace_all, flat_map-flat_map, flat_map-swap, onto, append-onto, before,
  same_before,
}
use stellar_quorum.Metrics.LabelSets.{escape_label_value}

-- A label value ends at a quotation mark and cannot hold a line feed; a backslash, `escaped`, makes a
-- backslash, a quotation mark or a line feed of the character behind it.
pub read_value : Bool → String → Option String
read_value false [] = some []
read_value true [] = none
read_value false (c ∷ cs) =
    let escape = read_value true cs in
    let plain = before c (read_value false cs) in
    if code c == 34
    then none
    else if code c == 10
    then none
    else if code c == 92
    then escape
    else plain
read_value true (c ∷ cs) =
    let rest = read_value false cs in
    if code c == 92
    then before "\\" rest
    else if code c == 34
    then before "\"" rest
    else if code c == 110
    then before "\n" rest
    else none

-- What the three replacements come to, for one character.
label_char : Char → String
label_char c =
    if code c == 92
    then "\\\\"
    else if code c == 10
    then "\\n"
    else if code c == 34
    then "\\\""
    else c ∷ []

three_tests :
    (c : Char)
    → flat_map (λ a. flat_map (swap 34 "\\\"") (swap 10 "\\n" a)) (swap 92 "\\\\" c) ≡ label_char c
unfolding flat_map label_char
three_tests c = simp flat_map-swap

escape_label_value-flat_map : (s : String) → escape_label_value s ≡ flat_map label_char s
unfolding escape_label_value replace_all
escape_label_value-flat_map s =
    flat_map-flat_map _ _ (flat_map _ s)
    ∙ flat_map-flat_map _ _ s
    ∙ ap (λ f. flat_map f s) (fun_ext three_tests)

reads :
    (c : Char) (rest : String)
    → read_value false (onto (label_char c) rest) ≡ before c (read_value false rest)
unfolding read_value label_char
reads c rest = elim (Bool-cases (code c == 92)) [
  | inl hit ↦ rw hit (same_before c "\\" _ hit)
  | inr n1 ↦ elim (Bool-cases (code c == 10)) [
    | inl hit ↦ rw (n1, hit) (same_before c "\n" _ hit)
    | inr n2 ↦ elim (Bool-cases (code c == 34)) [
      | inl hit ↦ rw (n1, n2, hit) (same_before c "\"" _ hit)
      | inr n3 ↦ rw (n1, n2, n3) (rw (n1, n2, n3))
    ]
  ]
]

read_value-flat_map : (s : String) → read_value false (flat_map label_char s) ≡ some s
unfolding flat_map read_value
read_value-flat_map [] = refl
read_value-flat_map (c ∷ cs) =
    ap (read_value false) (append-onto (label_char c) (flat_map label_char cs))
    ∙ reads c (flat_map label_char cs)
    ∙ ap (before c) (read_value-flat_map cs)

-- A label value is read back as it was, whatever quotation marks, backslashes and line feeds it has.
pub read_value-escape_label_value : (s : String) → read_value false (escape_label_value s) ≡ some s
read_value-escape_label_value s =
    ap (read_value false) (escape_label_value-flat_map s) ∙ read_value-flat_map s
