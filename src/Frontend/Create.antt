-- ===== src/Frontend/Create.antt =====
-- frontend/app/create/page.tsx: the form of a new proposal, its draft in the browser's storage
-- (lib/useLocalStorage.ts, which can be written here) and the steps of the page. React runs the page's
-- effect after every operation that has changed the stored value; the operations include that run.
pub mod Drafts
pub mod Review
mod Tests
use text.Mathlib.Text.{◌==◌ as same_text}
use Prim.Native.Char.{code}
use Prim.Native.String as S
use stellar_quorum.Base.{
  String, Bool, true, false, not, ◌&&◌, ◌||◌, ◌==◌, Option, none, some, if◌then◌else◌,
}
use stellar_quorum.Frontend.Env.{trim_start, trim_end, is_space}
use stellar_quorum.Frontend.Env.Strkey.{is_base32, text_length}

pub data Step : Type 0 where
  edit review submitted : Step

pub record FormState : Type 0 where
  pub title : String
  pub category : String
  pub description : String
  pub duration : String
  pub contract_address : String
  pub function_name : String
  pub action_description : String

abbrev pub empty_form : FormState
empty_form = record {
  title = "";
  category = "Governance";
  description = "";
  duration = "7 days";
  contract_address = "";
  function_name = "";
  action_description = "";
}

pub data Field : Type 0 where
  title category description duration contract_address function_name action_description : Field

-- `saved` is the hook's value, none where it is the initial form itself; `stored` is what the storage
-- holds, and `pending` the form that the running timer will save.
pub record Page : Type 0 where
  pub stored : Option FormState
  pub saved : Option FormState
  pub pending : Option FormState
  pub form : FormState
  pub step : Step
  pub restore_shown : Bool
  pub in_preview : Bool
  pub address_error : Option String

-- `{ ...form, [key]: value }`
abbrev pub with_field : Field → String → FormState → FormState
with_field title v f = record f { title = v }
with_field category v f = record f { category = v }
with_field description v f = record f { description = v }
with_field duration v f = record f { duration = v }
with_field contract_address v f = record f { contract_address = v }
with_field function_name v f = record f { function_name = v }
with_field action_description v f = record f { action_description = v }

abbrev is_contract_address : Field → Bool
is_contract_address contract_address = true
is_contract_address _ = false

-- `savedDraft.title || savedDraft.description`
abbrev pub has_text : FormState → Bool
has_text f = not (same_text f.title "" && same_text f.description "")

-- The page's effect on the stored value.
abbrev pub effect : Page → Page
effect p = elim p.saved [
  | none ↦ record p { form = empty_form }
  | some f ↦
      if has_text f
      then record p { restore_shown = true; form = f }
      else record p { form = empty_form }
]

-- `saveDraft`: the new value is another object, so that the effect runs.
unfoldable pub save_draft : FormState → Page → Page
save_draft f p = effect (record p { saved = some f; stored = some f })

-- `clearDraft`: the effect runs unless the value was the initial form already.
unfoldable pub clear_draft : Page → Page
clear_draft p = elim p.saved [
  | none ↦ record p { stored = none }
  | some f ↦ effect (record p { saved = none; stored = none })
]

-- The page is opened: the hook reads the storage, and then the effect runs.
unfoldable pub open_page : Option FormState → Page
open_page stored = effect (record {
  stored = stored;
  saved = stored;
  pending = none;
  form = empty_form;
  step = edit;
  restore_shown = false;
  in_preview = false;
  address_error = none;
})

-- `set(key)`: the timer begins again, with the new form.
unfoldable pub change : Field → String → Page → Page
change key value p =
    let f = with_field key value p.form in
    record p {
      form = f;
      pending = some f;
      address_error = if is_contract_address key then none else p.address_error;
    }

-- The timer runs out, a second after the last change.
unfoldable pub fire : Page → Page
unfolding save_draft
fire p = elim p.pending [ none ↦ p | some f ↦ save_draft f (record p { pending = none }) ]

unfoldable pub restore : Page → Page
restore p = record p { restore_shown = false }

-- The form is set after the draft is cleared; the effect then sets the same.
unfoldable pub discard : Page → Page
unfolding clear_draft
discard p = record (clear_draft p) { form = empty_form; restore_shown = false }

-- `/^[CG][A-Z2-7]{55}$/`
unfoldable pub is_valid_stellar_address : String → Bool
is_valid_stellar_address S.[] = false
is_valid_stellar_address (S.◌∷◌ c cs) =
    (code c == 67 || code c == 71) && text_length cs == 55 && is_base32 cs

abbrev pub address_is_valid : FormState → Bool
address_is_valid f =
    let address = trim_end is_space (trim_start is_space f.contract_address) in
    same_text address "" || is_valid_stellar_address address

unfoldable pub validate_contract_address : Page → Page
validate_contract_address p = record p {
  address_error = if address_is_valid p.form then none else some "Invalid Stellar contract address";
}

pub record ProposalTemplate : Type 0 where
  pub category : Option String
  pub description : Option String

-- The pending save is cancelled, the new form saved at once.
unfoldable pub apply_template : ProposalTemplate → Page → Page
unfolding save_draft
apply_template t p = elim t.category [
  | none ↦ p
  | some c ↦ elim t.description [
    | none ↦ p
    | some d ↦
        let f = record p.form { category = c; description = d } in
        save_draft f (record p { pending = none; form = f })
  ]
]

-- The browser submits the form only if its required fields are filled; the description's is there
-- unless the preview is shown.
abbrev pub may_submit : Page → Bool
may_submit p =
    not (same_text p.form.title "") && (p.in_preview || not (same_text p.form.description ""))

unfoldable pub submit_form : Page → Page
unfolding validate_contract_address
submit_form p =
    if may_submit p
    then if address_is_valid p.form
      then record (validate_contract_address p) { step = review }
      else validate_contract_address p
    else p

unfoldable pub show_preview : Bool → Page → Page
show_preview shown p = record p { in_preview = shown }

unfoldable pub edit_again : Page → Page
edit_again p = record p { step = edit }

-- `handleSubmit`
unfoldable pub sign : Page → Page
unfolding clear_draft
sign p = record (clear_draft p) { step = submitted }

unfoldable pub create_another : Page → Page
create_another p = record p { step = edit; form = empty_form }

-- The title in the message that the submission is confirmed with.
abbrev pub confirmed_title : Page → String
confirmed_title p = p.form.title
