-- ===== src/Frontend/Voters/Tests.antt =====
-- Paged votes.
use stellar_quorum.Base.{String, ◌≡◌, refl, List, [], ◌∷◌}
use stellar_quorum.Base.Text.{decimal, decimal_onto}
use stellar_quorum.Base.Text.Replace.{replace_all, flat_map}
use stellar_quorum.Frontend.Types.{Vote, for}
use stellar_quorum.Frontend.Voters.{truncate_address, visible_votes, csv_row}

abbrev vote : String → Vote
vote name = record { voter = name; choice = for; weight = 5; timestamp = "2026-05-12T14:22:00Z" }

abbrev three : List Vote
three = vote "a" ∷ vote "b" ∷ vote "c" ∷ []

shortened : truncate_address "GABCDEFGHIJKLMNOP3XZK" 4 4 ≡ "GABC...3XZK"
unfolding truncate_address
shortened = refl

short_already : truncate_address "GABC...3XZK" 4 4 ≡ "GABC...3XZK"
unfolding truncate_address
short_already = refl

past_the_last_page : visible_votes three 9 2 ≡ three
unfolding visible_votes
past_the_last_page = refl

quoted_row : csv_row (vote "a\"b") ≡ "\"a\"\"b\",for,5,2026-05-12T14:22:00Z"
unfolding csv_row replace_all flat_map decimal decimal_onto
quoted_row = refl
