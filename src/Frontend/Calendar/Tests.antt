-- ===== src/Frontend/Calendar/Tests.antt =====
-- The calendar file of a proposal.
use stellar_quorum.Base.{◌≡◌, refl}
use stellar_quorum.Base.Text.Replace.{replace_all, flat_map}
use stellar_quorum.Frontend.Proposals.Fixture.{qip_001}
use stellar_quorum.Frontend.Calendar.{Dates, escape_ical, generate_ics}
use stellar_quorum.Frontend.Calendar.Lines.{line_feeds, line_feeds-generate_ics}

abbrev dates : Dates
dates = record {
  now = 0;
  time = λ s. 5;
  utc = λ t. record { year = 2026; month = 2; day = 9; hours = 4; minutes = 0; seconds = 59 };
}

escaped : escape_ical "a;b,c\\d\ne" ≡ "a\\;b\\,c\\\\d\\ne"
unfolding escape_ical replace_all flat_map
escaped = refl

line_feeds-generate_ics_example : line_feeds (generate_ics dates qip_001) ≡ 13
unfolding line_feeds
line_feeds-generate_ics_example = line_feeds-generate_ics dates qip_001 refl
