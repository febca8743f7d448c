-- ===== src/Frontend/Time/Tests.antt =====
-- Phrases around dates.
use stellar_quorum.Base.{◌≡◌, refl, ◌+◌, ◌*◌}
use stellar_quorum.Base.Text.{decimal, decimal_onto}
use stellar_quorum.Frontend.Amounts.{format_number, grouped}
use stellar_quorum.Frontend.Types.{active, pending}
use stellar_quorum.Frontend.Time.{
  hour_ms, day_ms, units, amount, format_relative, describe_deadline,
}
use stellar_quorum.Frontend.Time.Amount.{Measures, amount-Measures}

almost_two_days : format_relative (day_ms + 23 * hour_ms) 0 ≡ "in 1 day"
unfolding format_relative format_number grouped decimal decimal_onto
almost_two_days = refl

three_hours_ago : format_relative 0 (3 * hour_ms) ≡ "3 hours ago"
unfolding format_relative format_number grouped decimal decimal_onto
three_hours_ago = refl

-- At the very end the two halves of the label do not fit together.
at_the_end : (describe_deadline active 0 hour_ms hour_ms).label ≡ "Ended in under a minute"
unfolding describe_deadline format_relative
at_the_end = refl

starts : (describe_deadline pending day_ms (day_ms + day_ms) 0).label ≡ "Starts in 1 day"
unfolding describe_deadline format_relative format_number grouped decimal decimal_onto
starts = refl

amount-Measures_example : Measures (day_ms + 23 * hour_ms) (amount (day_ms + 23 * hour_ms) units)
amount-Measures_example = amount-Measures (day_ms + 23 * hour_ms)
