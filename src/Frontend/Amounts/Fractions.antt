-- ===== src/Frontend/Amounts/Fractions.antt =====
-- The fraction of a token amount, as it is shown.
use text.Mathlib.Text.{◌==◌ as same_text}
use text.Mathlib.TextEquality.{eq_iff}
use stellar_quorum.Base.{
  ℕ, zero, suc, ◌+◌, ◌*◌, ◌/◌, ◌%◌, ◌^◌, ◌<◌, ◌≡◌, refl, Bool, true, false, ◌&&◌, ◌||◌, ◌==◌, arith,
}
use stellar_quorum.Base.Text.{◌<>◌, decimal, decimal_onto}
use stellar_quorum.Frontend.Amounts.{
  trimmed, strip_zeros, format_number, format_token_amount, units_of,
}

all_below : ℕ → (ℕ → Bool) → Bool
all_below zero p = true
all_below (suc n) p = p n && all_below n p

all_below-lt : (n : ℕ) (p : ℕ → Bool) (x : ℕ) → all_below n p ≡ true → x < n → p x ≡ true
unfolding all_below
all_below-lt zero p x h lt = absurd (omega arith)
all_below-lt (suc n) p x h lt = ground (arith, all_below-lt n p x)

every_dust : all_below 1000 (λ f. f == 0 || same_text (trimmed 7 f) "0000") ≡ true
unfolding all_below trimmed strip_zeros decimal decimal_onto
every_dust = refl

dust : (f : ℕ) → 0 < f → f < 1000 → trimmed 7 f ≡ "0000"
dust f pos small =
    let found =
      all_below-lt 1000 (λ f. f == 0 || same_text (trimmed 7 f) "0000") f every_dust small in
    (eq_iff (trimmed 7 f) "0000").0 (ground arith)

-- An amount with a fraction below a ten-thousandth, at seven decimals, is shown with four zeros behind
-- the point: zeros are dropped from the seven digits, before four of them are kept.
pub format_token_amount_dust :
    (w f : ℕ)
    → 0 < f
    → f < 1000
    → format_token_amount (w * 10000000 + f) 7 ≡ format_number w <> "." <> "0000"
unfolding format_token_amount
format_token_amount_dust w f pos small =
    let whole : (w * 10000000 + f) / 10000000 ≡ w = omega arith in
    let fraction : (w * 10000000 + f) % 10000000 ≡ f = omega arith in
    let some_left : (f == 0) ≡ false = ground arith in
    rw (whole, fraction, some_left, dust f pos small)

pow-pos : (d : ℕ) → 0 < 10 ^ d
pow-pos zero = omega arith
pow-pos (suc d) = omega (arith, pow-pos d)

-- A whole number of tokens is shown as that number, at any number of decimals.
pub format_token_amount-units_of :
    (amount decimals : ℕ)
    → format_token_amount (units_of amount decimals) decimals ≡ format_number amount
unfolding format_token_amount units_of
format_token_amount-units_of amount decimals =
    let pos = pow-pos decimals in
    let whole : amount * 10 ^ decimals / 10 ^ decimals ≡ amount = grind arith in
    let fraction : amount * 10 ^ decimals % 10 ^ decimals ≡ 0 = grind arith in rw (whole, fraction)
