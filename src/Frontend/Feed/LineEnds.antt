-- ===== src/Frontend/Feed/LineEnds.antt =====
-- The line ends of a text and of its escaped form (frontend/app/feed.xml/route.ts).
use Prim.Native.Char.{Char, code}
use Prim.Native.String.{[], ◌∷◌}
use stellar_quorum.Base.{
  arith, true, false, Bool, ◌&&◌, String, ◌≡◌, refl, sym, ap, ◌∙◌, Bool-cases, inl, inr, ◌==◌,
  if◌then◌else◌,
}
use stellar_quorum.Base.Text.Replace.{flat_map, onto, append-onto}
use stellar_quorum.Frontend.Feed.Xml.{is_xml_char, are_xml_chars, starts_line_feed, line_ends}
use stellar_quorum.Frontend.Feed.Entities.{xml_char, xml_char-cases, flat_map-cons}

line_ends-onto :
    (c : Char) (rest : String)
    → (code c == 13) ≡ false
    → line_ends (onto (xml_char c) rest) ≡ onto (xml_char c) (line_ends rest)
unfolding line_ends
line_ends-onto c rest h =
    xml_char-cases (λ w. line_ends (onto w rest) ≡ onto w (line_ends rest)) c (λ _. refl)
      (λ _. refl) (λ _. refl) (λ _. refl) (λ _. refl) (λ _ _ _. rw h refl)

starts_line_feed-onto :
    (c : Char) (rest : String) → starts_line_feed (onto (xml_char c) rest) ≡ (code c == 10)
starts_line_feed-onto c rest =
    xml_char-cases (λ w. starts_line_feed (onto w rest) ≡ (code c == 10)) c (λ hit. ground arith)
      (λ hit. ground arith) (λ hit. ground arith) (λ hit. ground arith) (λ hit. ground arith)
      (λ _ _ _. refl)

starts_line_feed-flat_map :
    (s : String) → starts_line_feed (flat_map xml_char s) ≡ starts_line_feed s
unfolding flat_map
starts_line_feed-flat_map [] = refl
starts_line_feed-flat_map (c ∷ cs) =
    ap starts_line_feed (append-onto (xml_char c) (flat_map xml_char cs))
    ∙ starts_line_feed-onto c (flat_map xml_char cs)

xml_char_of_return : (c : Char) → (code c == 13) ≡ true → xml_char c ≡ c ∷ []
xml_char_of_return c h =
    xml_char-cases (λ w. w ≡ c ∷ []) c (λ hit. absurd (ground arith)) (λ hit. absurd (ground arith))
      (λ hit. absurd (ground arith)) (λ hit. absurd (ground arith)) (λ hit. absurd (ground arith))
      (λ _ _ _. refl)

abbrev after_return : Bool → String → String
after_return fed rest = if fed then rest else "\n" ∷ rest

line_ends_of_return :
    (c : Char) (s : String)
    → (code c == 13) ≡ true
    → line_ends (c ∷ s) ≡ after_return (starts_line_feed s) (line_ends s)
unfolding line_ends
line_ends_of_return c s h = rw h refl

line_ends_of_other :
    (c : Char) (s : String) → (code c == 13) ≡ false → line_ends (c ∷ s) ≡ c ∷ line_ends s
unfolding line_ends
line_ends_of_other c s h = rw h refl

flat_map-after_return :
    (fed : Bool) (s : String)
    → flat_map xml_char (after_return fed s) ≡ after_return fed (flat_map xml_char s)
unfolding flat_map xml_char
flat_map-after_return true s = refl
flat_map-after_return false s = append-onto "\n" (flat_map xml_char s)

-- Line ends are read as they would be in the text itself.
pub line_ends-flat_map :
    (s : String) → line_ends (flat_map xml_char s) ≡ flat_map xml_char (line_ends s)
line_ends-flat_map [] = unfold flat_map line_ends in refl
line_ends-flat_map (c ∷ cs) = elim (Bool-cases (code c == 13)) [
  | inl back ↦
      rw (flat_map-cons, xml_char_of_return c back, line_ends_of_return c _ back)
        (rw (starts_line_feed-flat_map, line_ends-flat_map cs, line_ends_of_return c cs back)
          (sym (flat_map-after_return (starts_line_feed cs) (line_ends cs))))
  | inr other ↦
      rw (flat_map-cons, line_ends-onto c _ other, line_ends_of_other c cs other)
        (rw (line_ends-flat_map cs, flat_map-cons))
]

are_xml_chars-after_return :
    (fed : Bool) (s : String) → are_xml_chars (after_return fed s) ≡ are_xml_chars s
unfolding are_xml_chars is_xml_char
are_xml_chars-after_return true s = refl
are_xml_chars-after_return false s = refl

return_is_xml_char : (c : Char) → (code c == 13) ≡ true → is_xml_char c ≡ true
unfolding is_xml_char
return_is_xml_char c h = ground arith

pub are_xml_chars-line_ends : (s : String) → are_xml_chars (line_ends s) ≡ are_xml_chars s
unfolding are_xml_chars
are_xml_chars-line_ends [] = unfold line_ends in refl
are_xml_chars-line_ends (c ∷ cs) = elim (Bool-cases (code c == 13)) [
  | inl back ↦
      rw (line_ends_of_return c cs back, are_xml_chars-after_return, return_is_xml_char c back)
        (are_xml_chars-line_ends cs)
  | inr other ↦
      rw (line_ends_of_other c cs other) (ap (λ b. is_xml_char c && b) (are_xml_chars-line_ends cs))
]
