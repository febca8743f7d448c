-- ===== src/Frontend/Calendar/Lines.antt =====
-- The lines of a calendar file.
use Prim.Native.Char.{Char, code}
use Prim.Native.String.{[], ◌∷◌}
use stellar_quorum.Base.{
  ℕ, zero, suc, ◌+◌, ◌/◌, ◌%◌, ◌-◌, String, ◌≡◌, refl, ap, ◌∙◌, Bool-cases, inl, inr, ltb, ◌==◌,
  if◌then◌else◌, arith,
}
use stellar_quorum.Base.Text.{◌<>◌, decimal, decimal_onto, digit}
use stellar_quorum.Base.Text.Replace.{replace_all, flat_map, swap, onto, append-onto}
use stellar_quorum.Frontend.Amounts.{zeros}
use stellar_quorum.Frontend.Env.Strkey.{text_length}
use stellar_quorum.Frontend.Types.{Proposal}
use stellar_quorum.Frontend.Calendar.{Dates, escape_ical, pad, generate_ics}

-- How many line feeds a text has.
unfoldable pub line_feeds : String → ℕ
line_feeds [] = 0
line_feeds (c ∷ cs) = (if code c == 10 then 1 else 0) + line_feeds cs

line_feeds-onto : (s t : String) → line_feeds (onto s t) ≡ line_feeds s + line_feeds t
unfolding line_feeds
line_feeds-onto [] t = omega arith
line_feeds-onto (c ∷ cs) t = omega (arith, line_feeds-onto cs t)

line_feeds-append : (s t : String) → line_feeds (s <> t) ≡ line_feeds s + line_feeds t
line_feeds-append s t = ap line_feeds (append-onto s t) ∙ line_feeds-onto s t

line_feeds-swap : (c : Char) → line_feeds (swap 10 "\\n" c) ≡ 0
unfolding line_feeds
line_feeds-swap c = elim (Bool-cases (code c == 10)) [
  | inl hit ↦ rw hit refl
  | inr miss ↦ rw miss (rw miss refl)
]

line_feeds-flat_map : (s : String) → line_feeds (flat_map (swap 10 "\\n") s) ≡ 0
unfolding line_feeds flat_map
line_feeds-flat_map [] = refl
line_feeds-flat_map (c ∷ cs) =
    line_feeds-append (swap 10 "\\n" c) (flat_map (swap 10 "\\n") cs)
    ∙ omega (arith, line_feeds-swap c, line_feeds-flat_map cs)

line_feeds-escape_ical : (s : String) → line_feeds (escape_ical s) ≡ 0
unfolding escape_ical replace_all
line_feeds-escape_ical s = line_feeds-flat_map _

line_feeds-digit : (d : ℕ) (s : String) → line_feeds (digit d ∷ s) ≡ line_feeds s
unfolding line_feeds
line_feeds-digit zero s = omega arith
line_feeds-digit (suc zero) s = omega arith
line_feeds-digit (suc (suc zero)) s = omega arith
line_feeds-digit (suc (suc (suc zero))) s = omega arith
line_feeds-digit (suc (suc (suc (suc zero)))) s = omega arith
line_feeds-digit (suc (suc (suc (suc (suc zero))))) s = omega arith
line_feeds-digit (suc (suc (suc (suc (suc (suc zero)))))) s = omega arith
line_feeds-digit (suc (suc (suc (suc (suc (suc (suc zero))))))) s = omega arith
line_feeds-digit (suc (suc (suc (suc (suc (suc (suc (suc zero)))))))) s = omega arith
line_feeds-digit (suc (suc (suc (suc (suc (suc (suc (suc (suc d))))))))) s = omega arith

line_feeds-decimal_onto :
    (rounds n : ℕ) (s : String) → line_feeds (decimal_onto rounds n s) ≡ line_feeds s
unfolding decimal_onto
line_feeds-decimal_onto zero n s = line_feeds-digit (n % 10) s
line_feeds-decimal_onto (suc rounds) n s = elim (Bool-cases (ltb n 10)) [
  | inl last ↦ rw last (line_feeds-digit (n % 10) s)
  | inr more ↦
      rw more
        (line_feeds-decimal_onto rounds (n / 10) (digit (n % 10) ∷ s) ∙ line_feeds-digit (n % 10) s)
]

line_feeds-decimal : (n : ℕ) → line_feeds (decimal n) ≡ 0
unfolding decimal line_feeds
line_feeds-decimal n = line_feeds-decimal_onto n n []

line_feeds-zeros : (n : ℕ) (s : String) → line_feeds (zeros n s) ≡ line_feeds s
unfolding line_feeds
line_feeds-zeros zero s = refl
line_feeds-zeros (suc n) s = line_feeds-append "0" (zeros n s) ∙ omega (arith, line_feeds-zeros n s)

line_feeds-pad : (n : ℕ) → line_feeds (pad n) ≡ 0
line_feeds-pad n = line_feeds-zeros (2 - text_length (decimal n)) (decimal n) ∙ line_feeds-decimal n

-- The calendar file of a proposal whose id has no line feed has thirteen, at the ends of its lines:
-- whatever its title and its description hold, they add no line.
pub line_feeds-generate_ics :
    (dates : Dates) (p : Proposal) → line_feeds p.id ≡ 0 → line_feeds (generate_ics dates p) ≡ 13
unfolding generate_ics line_feeds
line_feeds-generate_ics dates p h =
    simp (line_feeds-append, line_feeds-pad, line_feeds-decimal, line_feeds-escape_ical, h)
