-- ===== src/Frontend/Calendar.antt =====
-- frontend/components/AddToCalendar.tsx: the calendar file of a proposal's deadline. `Dates` is
-- JavaScript's `Date` as far as it is used; a month counts from 0.
pub mod Lines
mod Tests
use stellar_quorum.Base.{ℕ, ◌+◌, ◌*◌, String, ltb, if◌then◌else◌}
use stellar_quorum.Base.Text.{◌<>◌, decimal}
use stellar_quorum.Base.Text.Replace.{replace_all}
use stellar_quorum.Frontend.Amounts.{pad_start}
use stellar_quorum.Frontend.Env.{first_chars}
use stellar_quorum.Frontend.Env.Strkey.{text_length}
use stellar_quorum.Frontend.Types.{Proposal}

-- What the `getUTC…` methods give.
pub record Utc : Type 0 where
  pub year : ℕ
  pub month : ℕ
  pub day : ℕ
  pub hours : ℕ
  pub minutes : ℕ
  pub seconds : ℕ

pub record Dates : Type 0 where
  pub now : ℕ
  pub time : String → ℕ
  pub utc : ℕ → Utc

unfoldable pub escape_ical : String → String
escape_ical text =
    replace_all 10 "\\n" (replace_all 44 "\\," (replace_all 59 "\\;" (replace_all 92 "\\\\" text)))

abbrev pub pad : ℕ → String
pad n = pad_start 2 (decimal n)

abbrev pub format_ical_date : Utc → String
format_ical_date d =
    decimal d.year
    <> pad (d.month + 1)
    <> pad d.day
    <> "T"
    <> pad d.hours
    <> pad d.minutes
    <> pad d.seconds
    <> "Z"

abbrev pub shortened : String → String
shortened description =
    first_chars 200 description <> (if ltb 200 (text_length description) then "..." else "")

unfoldable pub generate_ics : Dates → Proposal → String
generate_ics dates p =
    let voting_end = dates.time p.end_time in
    "BEGIN:VCALENDAR\nVERSION:2.0\nPRODID:-//StellarQuorum//StellarQuorum//EN\nBEGIN:VEVENT\nUID:"
    <> p.id
    <> "@stellarquorum\nDTSTAMP:"
    <> format_ical_date (dates.utc dates.now)
    <> "\nDTSTART:"
    <> format_ical_date (dates.utc voting_end)
    <> "\nDTEND:"
    <> format_ical_date (dates.utc (voting_end + 60 * 60 * 1000))
    <> "\nSUMMARY:"
    <> escape_ical ("Vote on: " <> p.title)
    <> "\nDESCRIPTION:"
    <> escape_ical (shortened p.description)
    <> "\nURL:https://quorum.stellar.org/proposals/"
    <> p.id
    <> "\nEND:VEVENT\nEND:VCALENDAR\r\n"
