-- ===== src/Frontend/Create/Review.antt =====
-- What a proposal under review is known to have, whatever led to the review.
use text.Mathlib.Text.{◌==◌ as same_text}
use mathlib.Core.Path.{subst}
use stellar_quorum.Base.{
  String, ◌≡◌, ◌≢◌, refl, sym, ap, ◌∙◌, Bool, true, false, Option, none, some, ◌⊎◌, inl, inr,
  Bool-cases, get_or, Option-cases, arith,
}
use stellar_quorum.Frontend.Create.{
  Step, edit, review, submitted, FormState, empty_form, Field, Page, has_text, save_draft,
  clear_draft, open_page, change, fire, restore, discard, address_is_valid,
  validate_contract_address, ProposalTemplate, apply_template, may_submit, submit_form,
  show_preview, edit_again, sign, create_another,
}

-- What the page lets happen: the controls of a step are there in that step only. The draft's banner and
-- the timer are always there; a draft is not discarded under review.
pub data Acts : Page → Page → Type 0 where
  changes : (p : Page) (key : Field) (value : String) → p.step ≡ edit → Acts p (change key value p)
  takes_template : (p : Page) (t : ProposalTemplate) → p.step ≡ edit → Acts p (apply_template t p)
  previews : (p : Page) (shown : Bool) → p.step ≡ edit → Acts p (show_preview shown p)
  leaves_address : (p : Page) → p.step ≡ edit → Acts p (validate_contract_address p)
  submits : (p : Page) → p.step ≡ edit → Acts p (submit_form p)
  edits_again : (p : Page) → p.step ≡ review → Acts p (edit_again p)
  signs : (p : Page) → p.step ≡ review → Acts p (sign p)
  creates_another : (p : Page) → p.step ≡ submitted → Acts p (create_another p)
  fires : (p : Page) → Acts p (fire p)
  restores : (p : Page) → Acts p (restore p)
  discards : (p : Page) → p.step ≢ review → Acts p (discard p)

pub data Reaches (stored : Option FormState) : Page → Type 0 where
  opened : Reaches stored (open_page stored)
  then_acts : {p q : Page} → Reaches stored p → Acts p q → Reaches stored q

-- A pending save is of the form that is shown, or the form cannot be submitted.
abbrev pub Fits : Option FormState → FormState → Type 0
Fits pending f = (pending ≡ none) ⊎ (pending ≡ some f) ⊎ (same_text f.title "" ≡ true)

abbrev pub IsReviewed : FormState → Type 0
IsReviewed f = (same_text f.title "" ≡ false) × (address_is_valid f ≡ true)

abbrev Holds : Step → Option FormState → FormState → Type 0
Holds edit pending f = Fits pending f
Holds review pending f = Fits pending f × IsReviewed f
Holds submitted pending f = Unit

abbrev HoldsOf : Page → Type 0
HoldsOf p = Holds p.step p.pending p.form

module _ (p : Page) where
  at_step : (s : Step) → p.step ≡ s → HoldsOf p → Holds s p.pending p.form
  at_step s e h = subst (λ t. Holds t p.pending p.form) e h

  save_draft-step : (f : FormState) → (save_draft f p).step ≡ p.step
  unfolding save_draft
  save_draft-step f = ground arith

  save_draft-pending : (f : FormState) → (save_draft f p).pending ≡ p.pending
  unfolding save_draft
  save_draft-pending f = ground arith

  save_draft-form : (f : FormState) → same_text f.title "" ≡ false → (save_draft f p).form ≡ f
  unfolding save_draft
  save_draft-form f h = ground arith

  clear_draft-step : (clear_draft p).step ≡ p.step
  unfolding clear_draft
  clear_draft-step = ground arith

of_step :
    {t : Step} (pending : Option FormState) (f : FormState) (s : Step)
    → t ≡ s
    → Holds s pending f
    → Holds t pending f
of_step pending f s e h = subst (λ t. Holds t pending f) (sym e) h

-- With nothing pending, only the review asks for more.
unpending :
    (s : Step) (pending : Option FormState) (f : FormState)
    → pending ≡ none
    → s ≢ review
    → Holds s pending f
unpending edit pending f h k = inl h
unpending review pending f h k = absurd (k refl)
unpending submitted pending f h k = tt

empties : (s : Step) (pending : Option FormState) → s ≢ review → Holds s pending empty_form
empties edit pending k = inr (inr refl)
empties review pending k = absurd (k refl)
empties submitted pending k = tt

save_draft-Fits :
    (f : FormState) (p : Page)
    → p.step ≡ edit
    → HoldsOf (save_draft f (record p { pending = none; form = f }))
save_draft-Fits f p e =
    let q : Page = record p { pending = none; form = f } in
    rw (save_draft-step q f, save_draft-pending q f) (of_step _ _ edit e (inl refl))

-- The form that is saved is the one under review.
saves :
    (s : Step) (f : FormState) (p : Page)
    → p.step ≡ s
    → Holds s (some f) p.form
    → Holds s none (save_draft f (record p { pending = none })).form
saves edit f p e h = inl refl
saves review f p e h =
    let same : f ≡ p.form = ap (λ o. get_or o f) (pending_is_form h.0 h.1.0) in
    let text : same_text f.title "" ≡ false = rw same h.1.0 in
    (
      inl refl,
      subst IsReviewed (sym (save_draft-form (record p { pending = none }) f text ∙ same)) h.1,
    )
  where
    pending_is_form :
        {g : FormState} → Fits (some f) g → same_text g.title "" ≡ false → some f ≡ some g
    pending_is_form (inl c) k = cc
    pending_is_form (inr (inl same)) k = same
    pending_is_form (inr (inr c)) k = cc (c, k)
saves submitted f p e h = tt

fire_idle : (p : Page) → p.pending ≡ none → fire p ≡ p
unfolding fire
fire_idle p idle = rw idle

fire_waiting :
    (p : Page) (f : FormState)
    → p.pending ≡ some f
    → fire p ≡ save_draft f (record p { pending = none })
unfolding fire
fire_waiting p f waits = rw waits

save_draft-Holds :
    (f : FormState) (p : Page)
    → Holds p.step (some f) p.form
    → HoldsOf (save_draft f (record p { pending = none }))
save_draft-Holds f p h =
    let q : Page = record p { pending = none } in
    rw (save_draft-step q f, save_draft-pending q f) (saves p.step f p refl h)

fire-Holds : (p : Page) → HoldsOf p → HoldsOf (fire p)
fire-Holds p h = elim (Option-cases p.pending) [
  | inl idle ↦ subst HoldsOf (sym (fire_idle p idle)) h
  | inr (f, waits) ↦
      subst HoldsOf (sym (fire_waiting p f waits))
        (save_draft-Holds f p (subst (λ o. Holds p.step o p.form) waits h))
]

Acts-Holds : {p q : Page} → Acts p q → HoldsOf p → HoldsOf q
unfolding change apply_template show_preview validate_contract_address submit_form edit_again sign
    create_another restore discard
Acts-Holds (changes p key value e) h = of_step _ _ edit e (inr (inl refl))
Acts-Holds (takes_template p t e) h = elim (Option-cases t.category) [
  | inl missing ↦ rw missing h
  | inr (c, given) ↦ elim (Option-cases t.description) [
    | inl missing ↦ rw (given, missing) h
    | inr (d, given') ↦
        rw (given, given') (save_draft-Fits (record p.form { category = c; description = d }) p e)
  ]
]
Acts-Holds (previews p shown e) h = h
Acts-Holds (leaves_address p e) h = h
Acts-Holds (submits p e) h = elim (Bool-cases (may_submit p)) [
  | inl may ↦ elim (Bool-cases (address_is_valid p.form)) [
    | inl valid ↦ rw (may, valid) (at_step p edit e h, (ground arith, valid))
    | inr invalid ↦ rw (may, invalid) h
  ]
  | inr kept ↦ rw kept h
]
Acts-Holds (edits_again p e) h = (at_step p review e h).0
Acts-Holds (signs p e) h = tt
Acts-Holds (creates_another p e) h = inr (inr refl)
Acts-Holds (fires p) h = fire-Holds p h
Acts-Holds (restores p) h = h
Acts-Holds (discards p k) h = empties _ _ (rw (clear_draft-step p) k)

open_page-Holds : (stored : Option FormState) → HoldsOf (open_page stored)
unfolding open_page
open_page-Holds none = inl refl
open_page-Holds (some f) = elim (Bool-cases (has_text f)) [
  | inl text ↦ rw text (inl refl)
  | inr no_text ↦ rw no_text (inl refl)
]

Reaches-Holds : {stored : Option FormState} {p : Page} → Reaches stored p → HoldsOf p
Reaches-Holds {stored} opened = open_page-Holds stored
Reaches-Holds (then_acts r a) = Acts-Holds a (Reaches-Holds r)

-- However a page came to the review, if no draft was discarded under review, the proposal has a title
-- and its contract address is empty or valid.
pub Reaches-IsReviewed :
    (stored : Option FormState) (p : Page) → Reaches stored p → p.step ≡ review → IsReviewed p.form
Reaches-IsReviewed stored p r e = (at_step p review e (Reaches-Holds r)).1

-- Discarding the draft under review leaves the review on the initial form, which can then be signed.
pub discard_under_review :
    (p : Page)
    → p.step ≡ review
    → ((discard p).step ≡ review)
      × ((discard p).form ≡ empty_form)
      × ((sign (discard p)).step ≡ submitted)
unfolding discard sign
discard_under_review p e = (clear_draft-step p ∙ e, refl, refl)
