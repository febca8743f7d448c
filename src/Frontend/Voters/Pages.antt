-- ===== src/Frontend/Voters/Pages.antt =====
-- Which votes a page shows.
use native.Mathlib.Nat.{lt-mul-div-succ}
use stellar_quorum.Base.{
  ℕ, zero, suc, ◌+◌, ◌-◌, ◌*◌, ◌/◌, ◌≤◌, ◌<◌, min, ◌≡◌, refl, sym, ap, ◌∙◌, leb, Bool-cases, inl,
  inr, List, [], ◌∷◌, length, take, length-take, arith,
}
use stellar_quorum.Frontend.Types.{Vote}
use stellar_quorum.Frontend.Voters.{at_least_one, ceil_div, visible_votes, hidden_count}

take_all {ℓ} : {A : Type ℓ} (n : ℕ) (xs : List A) → length xs ≤ n → take n xs ≡ xs
take_all zero [] h = refl
take_all zero (x ∷ xs) h = absurd (omega arith)
take_all (suc n) [] h = refl
take_all (suc n) (x ∷ xs) h = ap (λ r. x ∷ r) (take_all n xs (omega arith))

le-mul_right : (q p d : ℕ) → q ≤ p → q * d ≤ p * d
le-mul_right q p d h = grind arith

-- The pages hold all.
le-ceil_div-mul : (n d : ℕ) → 0 < d → n ≤ ceil_div n d * d
le-ceil_div-mul n d h =
    let below = lt-mul-div-succ (n + d - 1) h in
    let spread : d * ((n + d - 1) / d + 1) ≡ (n + d - 1) / d * d + d = grind arith in omega arith

take-min {ℓ} :
    {A : Type ℓ} (p q d : ℕ) (xs : List A)
    → length xs ≤ q * d
    → take (min p q * d) xs ≡ take (p * d) xs
take-min p q d xs h = elim (Bool-cases (leb p q)) [
  | inl below ↦ let least : min p q ≡ p = ground arith in rw least
  | inr above ↦
      let least : min p q ≡ q = ground arith in
      let wider : q * d ≤ p * d = le-mul_right q p d (ground arith) in
      rw least (take_all (q * d) xs h ∙ sym (take_all (p * d) xs (omega arith)))
]

-- Clamping the page shows what the page itself would: as many votes as that many pages hold, at least
-- one page. The count of hidden votes is of the others.
pub visible_votes-eq-take :
    (votes : List Vote) (page per_page : ℕ)
    → 0 < per_page
    → (visible_votes votes page per_page ≡ take (at_least_one page * per_page) votes)
      × (length (visible_votes votes page per_page)
            + hidden_count votes (length (visible_votes votes page per_page))
          ≡ length votes)
unfolding visible_votes hidden_count
visible_votes-eq-take votes page per_page h =
    let pages = ceil_div (length votes) per_page in
    let enough = le-ceil_div-mul (length votes) per_page h in
    let held : pages * per_page ≤ at_least_one pages * per_page =
      le-mul_right pages (at_least_one pages) per_page (ground arith) in
    (
      take-min (at_least_one page) (at_least_one pages) per_page votes (omega arith),
      omega (arith, length-take (min (at_least_one page) (at_least_one pages) * per_page) votes),
    )
