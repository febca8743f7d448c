-- ===== src/Frontend/Create/Tests.antt =====
-- Sessions with the form of a new proposal.
use stellar_quorum.Base.{◌≡◌, refl, true, none, some}
use stellar_quorum.Frontend.Env.{trim_start, trim_end}
use stellar_quorum.Frontend.Create.{
  Page, empty_form, edit, review, title, description, duration, with_field, open_page, change, fire,
  submit_form, sign, confirmed_title, is_valid_stellar_address, save_draft,
}
use stellar_quorum.Frontend.Create.Drafts.{fire-change_undone, open_page-fire, sign-draft}
use stellar_quorum.Frontend.Create.Review.{
  Reaches, opened, then_acts, changes, submits, IsReviewed, Reaches-IsReviewed,
}

contract_address_accepted :
    is_valid_stellar_address "CA3D5KRYM6CB7OWQ6TWYRR3Z4T7GNZLKERYNZGGA5SOAOPIFY6YQGAXE" ≡ true
unfolding is_valid_stellar_address
contract_address_accepted = refl

abbrev blank : Page
blank = open_page none

abbrev titled : Page
titled = change title "Grant" blank

abbrev described : Page
described = change description "Pay it." titled

abbrev saved_draft : Page
saved_draft = fire described

-- Saved, and edited again since.
abbrev edited : Page
edited = change title "Grants" saved_draft

abbrev reviewed : Page
reviewed = submit_form described

fire-change_undone_example :
    ((change duration "3 days" blank).form ≡ with_field duration "3 days" blank.form)
    × ((fire (change duration "3 days" blank)).form ≡ empty_form)
unfolding open_page
fire-change_undone_example = fire-change_undone duration "3 days" blank refl refl

open_page-fire_example :
    ((fire (change title "Grant" blank)).form ≡ with_field title "Grant" blank.form)
    × ((open_page (fire (change title "Grant" blank)).stored).form
        ≡ with_field title "Grant" blank.form)
    × ((open_page (fire (change title "Grant" blank)).stored).restore_shown ≡ true)
open_page-fire_example = open_page-fire title "Grant" blank refl

sign-draft_example :
    (confirmed_title (sign edited) ≡ "")
    × ((sign edited).stored ≡ none)
    × ((fire (sign edited)).stored ≡ some edited.form)
    × ((fire (sign edited)).restore_shown ≡ true)
unfolding open_page change fire save_draft
sign-draft_example = sign-draft edited described.form edited.form refl refl refl

reviewed_step : reviewed.step ≡ review
unfolding open_page change submit_form trim_start trim_end
reviewed_step = refl

in_edit : blank.step ≡ edit
unfolding open_page
in_edit = refl

titled_in_edit : titled.step ≡ edit
unfolding open_page change
titled_in_edit = refl

described_in_edit : described.step ≡ edit
unfolding open_page change
described_in_edit = refl

led_to_review : Reaches none reviewed
led_to_review =
    then_acts
      (then_acts (then_acts opened (changes blank title "Grant" in_edit))
        (changes titled description "Pay it." titled_in_edit))
      (submits described described_in_edit)

Reaches-IsReviewed_example : IsReviewed reviewed.form
Reaches-IsReviewed_example = Reaches-IsReviewed none reviewed led_to_review reviewed_step
