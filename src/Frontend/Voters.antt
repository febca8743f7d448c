-- ===== src/Frontend/Voters.antt =====
-- frontend/lib/voters.ts: the paged list of a proposal's voters, and the export of VoterList.tsx.
pub mod Pages
mod Tests
use stellar_quorum.Base.{
  ℕ, zero, suc, ◌+◌, ◌-◌, ◌*◌, ◌/◌, min, leb, ltb, ◌==◌, String, List, [], ◌∷◌, length, take, map,
  if◌then◌else◌,
}
use stellar_quorum.Base.Text.{◌<>◌, decimal}
use stellar_quorum.Base.Text.Replace.{replace_all}
use stellar_quorum.Frontend.Amounts.{last_chars}
use stellar_quorum.Frontend.Env.{first_chars}
use stellar_quorum.Frontend.Env.Strkey.{text_length}
use stellar_quorum.Frontend.Types.{Vote, VoteChoice, for, against, abstain}

abbrev pub voters_per_page : ℕ
voters_per_page = 10

-- `s.slice(-n)`: all of it for 0.
abbrev pub slice_end : ℕ → String → String
slice_end zero s = s
slice_end (suc n) s = last_chars (suc n) s

unfoldable pub truncate_address : String → ℕ → ℕ → String
truncate_address address lead tail =
    if leb (text_length address) (lead + tail + 3)
    then address
    else first_chars lead address <> "..." <> slice_end tail address

abbrev pub at_least_one : ℕ → ℕ
at_least_one n = if ltb n 1 then 1 else n

-- `Math.ceil(n / d)`
abbrev pub ceil_div : ℕ → ℕ → ℕ
ceil_div n d = (n + d - 1) / d

-- `perPage` is not 0.
unfoldable pub visible_votes : List Vote → ℕ → ℕ → List Vote
visible_votes votes page per_page =
    let pages = at_least_one (ceil_div (length votes) per_page) in
    let safe_page = min (at_least_one page) pages in take (safe_page * per_page) votes

unfoldable pub hidden_count : List Vote → ℕ → ℕ
hidden_count votes shown = length votes - shown

abbrev choice_name : VoteChoice → String
choice_name for = "for"
choice_name against = "against"
choice_name abstain = "abstain"

-- One row of `exportCSV`.
unfoldable pub csv_row : Vote → String
csv_row v =
    "\""
    <> replace_all 34 "\"\"" v.voter
    <> "\","
    <> choice_name v.choice
    <> ","
    <> decimal v.weight
    <> ","
    <> v.timestamp

abbrev joined : List String → String
joined [] = ""
joined (x ∷ []) = x
joined (x ∷ y ∷ ys) = x <> "\n" <> joined (y ∷ ys)

unfoldable pub export_csv : List Vote → String
export_csv votes = "address,choice,weight,timestamp\n" <> joined (map csv_row votes)
