-- ===== src/Frontend/Feed/Entities.antt =====
-- `escapeXml` of frontend/app/feed.xml/route.ts, character by character.
use Prim.Native.Char.{Char, code}
use Prim.Native.String.{[], ◌∷◌}
use mathlib.Core.Path.{fun_ext}
use stellar_quorum.Base.{
  String, ◌≡◌, ap, ◌∙◌, ◌==◌, if◌then◌else◌, Bool-cases, inl, inr, true, false,
}
use stellar_quorum.Base.Text.Replace.{
  flat_map, swap, replace_all, flat_map-flat_map, flat_map-swap, onto, append-onto,
}
use stellar_quorum.Frontend.Feed.{escape_xml}

-- What the five replacements come to, for one character.
unfoldable pub xml_char : Char → String
xml_char c =
    if code c == 38
    then "&amp;"
    else if code c == 60
    then "&lt;"
    else if code c == 62
    then "&gt;"
    else if code c == 34
    then "&quot;"
    else if code c == 39
    then "&apos;"
    else c ∷ []

five_tests :
    (c : Char)
    → flat_map
        (λ a.
          flat_map
            (λ b.
              flat_map (λ d. flat_map (swap 39 "&apos;") (swap 34 "&quot;" d)) (swap 62 "&gt;" b))
            (swap 60 "&lt;" a))
        (swap 38 "&amp;" c)
      ≡ xml_char c
unfolding flat_map xml_char
five_tests c = simp flat_map-swap

pub escape_xml-flat_map : (s : String) → escape_xml s ≡ flat_map xml_char s
unfolding escape_xml replace_all
escape_xml-flat_map s =
    flat_map-flat_map _ _ (flat_map _ (flat_map _ (flat_map _ s)))
    ∙ flat_map-flat_map _ _ (flat_map _ (flat_map _ s))
    ∙ flat_map-flat_map _ _ (flat_map _ s)
    ∙ flat_map-flat_map _ _ s
    ∙ ap (λ f. flat_map f s) (fun_ext five_tests)

pub flat_map-cons :
    (c : Char) (s : String) → flat_map xml_char (c ∷ s) ≡ onto (xml_char c) (flat_map xml_char s)
unfolding flat_map
flat_map-cons c s = append-onto (xml_char c) (flat_map xml_char s)

pub xml_char-cases :
    (P : String → Type 0) (c : Char)
    → ((code c == 38) ≡ true → P "&amp;")
    → ((code c == 60) ≡ true → P "&lt;")
    → ((code c == 62) ≡ true → P "&gt;")
    → ((code c == 34) ≡ true → P "&quot;")
    → ((code c == 39) ≡ true → P "&apos;")
    → ((code c == 38) ≡ false → (code c == 60) ≡ false → (code c == 62) ≡ false → P (c ∷ []))
    → P (xml_char c)
unfolding xml_char
xml_char-cases P c amp lt gt quot apos other = elim (Bool-cases (code c == 38)) [
  | inl hit ↦ rw hit (amp hit)
  | inr n1 ↦ elim (Bool-cases (code c == 60)) [
    | inl hit ↦ rw (n1, hit) (lt hit)
    | inr n2 ↦ elim (Bool-cases (code c == 62)) [
      | inl hit ↦ rw (n1, n2, hit) (gt hit)
      | inr n3 ↦ elim (Bool-cases (code c == 34)) [
        | inl hit ↦ rw (n1, n2, n3, hit) (quot hit)
        | inr n4 ↦ elim (Bool-cases (code c == 39)) [
          | inl hit ↦ rw (n1, n2, n3, n4, hit) (apos hit)
          | inr n5 ↦ rw (n1, n2, n3, n4, n5) (other n1 n2 n3)
        ]
      ]
    ]
  ]
]
