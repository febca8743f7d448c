-- ===== src/Frontend/Amounts/Tests.antt =====
-- Token amounts as text.
use stellar_quorum.Base.{◌≡◌, refl, true}
use stellar_quorum.Base.Result.{ok, err}
use stellar_quorum.Base.Text.{decimal, decimal_onto}
use stellar_quorum.Sdk.Errors.{instance_of, error}
use stellar_quorum.Frontend.Amounts.{
  format_token_amount, format_number, grouped, trimmed, strip_zeros, get_voting_power,
  token_decimals,
}

thousands : format_token_amount 25000000000 7 ≡ "2,500"
unfolding format_token_amount format_number grouped trimmed strip_zeros decimal decimal_onto
thousands = refl

four_places : format_token_amount 123456789012 7 ≡ "12,345.6789"
unfolding format_token_amount format_number grouped trimmed strip_zeros decimal decimal_onto
four_places = refl

dust_shown : format_token_amount 10000100 7 ≡ "1.0000"
unfolding format_token_amount format_number grouped trimmed strip_zeros decimal decimal_onto
dust_shown = refl

fixture_voter :
    get_voting_power true (err (instance_of error "offline")) "GABC...3XZK" 61284512
    ≡ ok (record { snapshot = 25000000000; current = 40000000000; decimals = token_decimals })
unfolding get_voting_power
fixture_voter = refl
