-- ===== src/Frontend/Create/Drafts.antt =====
-- What becomes of a draft, and what a proposal under review is known to have.
use stellar_quorum.Base.{String, ◌≡◌, refl, Bool, true, false, none, some, arith}
use stellar_quorum.Frontend.Create.{
  FormState, empty_form, Field, title, category, description, duration, contract_address,
  function_name, action_description, Page, with_field, has_text, save_draft, clear_draft, open_page,
  change, fire, sign, confirmed_title,
}

-- Neither the title nor the description.
abbrev pub is_other : Field → Bool
is_other title = false
is_other description = false
is_other _ = true

has_text-with_field :
    (key : Field) (value : String) (f : FormState)
    → is_other key ≡ true
    → has_text f ≡ false
    → has_text (with_field key value f) ≡ false
has_text-with_field title value f h k = cc
has_text-with_field category value f h k = k
has_text-with_field description value f h k = cc
has_text-with_field duration value f h k = k
has_text-with_field contract_address value f h k = k
has_text-with_field function_name value f h k = k
has_text-with_field action_description value f h k = k

fire-change :
    (key : Field) (value : String) (p : Page)
    → fire (change key value p)
      ≡ save_draft (with_field key value p.form) (record (change key value p) { pending = none })
unfolding fire change
fire-change key value p = refl

-- While the form has neither a title nor a description, a change of any other field is undone when the
-- timer runs out: the whole form is the initial one again.
pub fire-change_undone :
    (key : Field) (value : String) (p : Page)
    → is_other key ≡ true
    → has_text p.form ≡ false
    → ((change key value p).form ≡ with_field key value p.form)
      × ((fire (change key value p)).form ≡ empty_form)
unfolding fire change save_draft
fire-change_undone key value p other no_text =
    (refl, rw (has_text-with_field key value p.form other no_text))

-- A form with a title or a description is kept: when the timer has run out after a change, it is still
-- in the form, and a page opened later begins with it and offers the draft.
pub open_page-fire :
    (key : Field) (value : String) (p : Page)
    → has_text (with_field key value p.form) ≡ true
    → ((fire (change key value p)).form ≡ with_field key value p.form)
      × ((open_page (fire (change key value p)).stored).form ≡ with_field key value p.form)
      × ((open_page (fire (change key value p)).stored).restore_shown ≡ true)
unfolding fire change save_draft open_page
open_page-fire key value p text = (rw text, ground arith, ground arith)

-- Signing clears the form when a draft was saved, so that the confirmation names no title; and a save
-- that was pending stores the submitted proposal as a draft again, and offers it.
pub sign-draft :
    (p : Page) (d f : FormState)
    → p.saved ≡ some d
    → p.pending ≡ some f
    → has_text f ≡ true
    → (confirmed_title (sign p) ≡ "")
      × ((sign p).stored ≡ none)
      × ((fire (sign p)).stored ≡ some f)
      × ((fire (sign p)).restore_shown ≡ true)
unfolding sign clear_draft fire save_draft
sign-draft p d f saved pending text = (ground arith, ground arith, ground arith, ground arith)
