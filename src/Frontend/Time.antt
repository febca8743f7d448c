-- ===== src/Frontend/Time.antt =====
-- frontend/lib/time.ts: the phrases around a proposal's dates. A date is its milliseconds since the epoch;
-- `formatAbsolute` is the platform's.
pub mod Amount
mod Tests
use stellar_quorum.Base.{
  ℕ, ◌+◌, ◌-◌, ◌*◌, ◌/◌, String, Bool, true, false, ◌&&◌, not, leb, ltb, ◌==◌, Option, none, some,
  List, [], ◌∷◌, if◌then◌else◌,
}
use stellar_quorum.Base.Text.{◌<>◌}
use stellar_quorum.Frontend.Amounts.{format_number}
use stellar_quorum.Frontend.Types.{
  ProposalStatus, active, passed, failed, pending, executed, cancelled,
}

pub data TimeUnit : Type 0 where
  year month day hour minute : TimeUnit

abbrev pub minute_ms : ℕ
minute_ms = 60000

abbrev pub hour_ms : ℕ
hour_ms = 60 * minute_ms

abbrev pub day_ms : ℕ
day_ms = 24 * hour_ms

abbrev pub ms_of : TimeUnit → ℕ
ms_of year = 365 * day_ms
ms_of month = 30 * day_ms
ms_of day = day_ms
ms_of hour = hour_ms
ms_of minute = minute_ms

-- `UNITS`, the largest first.
abbrev pub units : List TimeUnit
units = year ∷ month ∷ day ∷ hour ∷ minute ∷ []

-- The loop over the units: the first that is not longer, and how many of it.
unfoldable pub amount : ℕ → List TimeUnit → Option (TimeUnit × ℕ)
amount abs [] = none
amount abs (u ∷ us) =
    let smaller = amount abs us in if leb (ms_of u) abs then some (u, abs / ms_of u) else smaller

abbrev unit_name : TimeUnit → String
unit_name year = "year"
unit_name month = "month"
unit_name day = "day"
unit_name hour = "hour"
unit_name minute = "minute"

abbrev counted : ℕ → TimeUnit → String
counted n u = format_number n <> " " <> unit_name u <> (if n == 1 then "" else "s")

-- `relative.format(n, unit)` in English, `numeric: "always"`, for a number that is not 0.
abbrev phrase : Bool → Option (TimeUnit × ℕ) → String
phrase ahead none = if ahead then "in under a minute" else "just now"
phrase true (some (u, n)) = "in " <> counted n u
phrase false (some (u, n)) = counted n u <> " ago"

unfoldable pub format_relative : ℕ → ℕ → String
unfolding amount
format_relative time now =
    phrase (leb now time) (amount (if leb now time then time - now else now - time) units)

pub record Deadline : Type 0 where
  pub label : String
  pub time : ℕ

abbrev is_pending : ProposalStatus → Bool
is_pending pending = true
is_pending _ = false

unfoldable pub describe_deadline : ProposalStatus → ℕ → ℕ → ℕ → Deadline
describe_deadline status start_time end_time now =
    if is_pending status && ltb now start_time
    then record { label = "Starts " <> format_relative start_time now; time = start_time }
    else record {
      label = (if leb end_time now then "Ended" else "Ends") <> " " <> format_relative end_time now;
      time = end_time;
    }
