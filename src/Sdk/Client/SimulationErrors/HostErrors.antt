-- ===== src/Sdk/Client/SimulationErrors/HostErrors.antt =====
-- Which class an error with one of the governance contract's codes is turned into.
use Prim.Native.Char.{Char}
use Prim.Native.String.{[], ◌∷◌}
use mathlib.Core.List as L
use text.Mathlib.TextLemmas.{nil-append, cons-append}
use stellar_quorum.Base.{arith, String, ◌≡◌, refl, ◌∙◌, ap, Bool, false, ◌||◌, List, All, none}
use stellar_quorum.Base.Text.{◌<>◌, strip_prefix, strip_by, includes, includes_by}
use stellar_quorum.Base.Text.Replace.{onto, append-onto}
use stellar_quorum.Sdk.Errors.Codes.{GovernanceError}
use stellar_quorum.Sdk.Errors.Parsing.{includes-cons_false}
use stellar_quorum.Sdk.Errors.{Thrown, text_of}
use stellar_quorum.Sdk.Client.SimulationErrors.{
  map_governance_simulation_error, has_marker, mentions,
}
use stellar_quorum.Sdk.Client.SimulationErrors.Marks.{class_named, code_mark, class_by, at_code}

-- Pieces of text with `Error(Contract, #N)` between them.
unfoldable pub codes_text : GovernanceError → String → List String → String
codes_text e piece L.[] = piece
codes_text e piece (L.◌∷◌ next more) =
    piece <> "Error(Contract, " <> code_mark e <> codes_text e next more

abbrev class_names : List String
class_names = L.◌∷◌ "ProposalNotFound" (
    L.◌∷◌ "VotingNotActive"
      (L.◌∷◌ "ProposalNotPassed" (L.◌∷◌ "TimelockNotExpired" (L.◌∷◌ "Unauthorized" L.[]))))

-- The error of a simulation that the contract refuses with `e`: its text, with the log of events
-- behind it, has the code of `e` once or more often, no other `#`, and none of the words that the
-- client looks for.
pub record IsRefusal (t : Thrown) (e : GovernanceError) : Type 0 where
  pub first : String
  pub next : String
  pub more : List String
  pub reads : text_of t ≡ codes_text e first (L.◌∷◌ next more)
  pub unmarked : All (λ p. includes "#" p ≡ false) (L.◌∷◌ first (L.◌∷◌ next more))
  pub unnamed : All (λ name. includes name (text_of t) ≡ false) class_names

strip_prefix-hash :
    (c : Char) (s t : String) → strip_prefix "#" (c ∷ s) ≡ none → strip_prefix "#" (c ∷ t) ≡ none
unfolding strip_prefix strip_by
strip_prefix-hash c s t h = ground arith

has_marker-plain :
    (n p t : String) → includes "#" p ≡ false → has_marker n (p <> t) ≡ has_marker n t
unfolding has_marker
has_marker-plain n [] t h = rw nil-append refl
has_marker-plain n (c ∷ p) t h =
    let (no_match, later) = includes-cons_false "#" c p h in
    let none_here = strip_prefix-hash c p (p <> t) no_match in
    rw (cons-append, none_here) (has_marker-plain n p t later)

unmarked-has_marker : (n p : String) → includes "#" p ≡ false → has_marker n p ≡ false
unfolding has_marker
unmarked-has_marker n [] h = refl
unmarked-has_marker n (c ∷ p) h =
    let (no_match, later) = includes-cons_false "#" c p h in
    rw no_match (unmarked-has_marker n p later)

-- What the texts come to, for a number `n` that stands in the mark of `e` or does not.
module _ (e : GovernanceError) (n : String) (b : Bool)
    (at_mark : (t : String) → has_marker n (onto (code_mark e) t) ≡ b || has_marker n t) where
  has_marker-mark :
      (p t : String)
      → includes "#" p ≡ false
      → has_marker n (p <> "Error(Contract, " <> code_mark e <> t) ≡ b || has_marker n t
  unfolding includes includes_by strip_by
  has_marker-mark p t h =
      has_marker-plain n p _ h
      ∙ has_marker-plain n "Error(Contract, " _ refl
      ∙ ap (has_marker n) (append-onto (code_mark e) t)
      ∙ at_mark t

  has_marker-codes_text :
      (p q : String) (more : List String)
      → All (λ r. includes "#" r ≡ false) (L.◌∷◌ p (L.◌∷◌ q more))
      → has_marker n (codes_text e p (L.◌∷◌ q more)) ≡ b
  unfolding codes_text
  has_marker-codes_text p q L.[] h =
      has_marker-mark p q h.0 ∙ rw (unmarked-has_marker n q h.1.0) (ground arith)
  has_marker-codes_text p q (L.◌∷◌ r more) h =
      has_marker-mark p _ h.0 ∙ rw (has_marker-codes_text q r more h.1) (ground arith)

class-map_governance_simulation_error :
    (method : String) (t : Thrown)
    → (map_governance_simulation_error method t).class
      ≡ class_by
          (mentions "3" "ProposalNotFound" (text_of t))
          (mentions "4" "VotingNotActive" (text_of t))
          (mentions "7" "ProposalNotPassed" (text_of t))
          (mentions "12" "TimelockNotExpired" (text_of t))
          (mentions "2" "Unauthorized" (text_of t))
unfolding map_governance_simulation_error
class-map_governance_simulation_error method t = ground arith

mentions_code :
    (t : Thrown) (e : GovernanceError) (h : IsRefusal t e) (n name : String) (b : Bool)
    → ((s : String) → has_marker n (onto (code_mark e) s) ≡ b || has_marker n s)
    → includes name (text_of t) ≡ false
    → mentions n name (text_of t) ≡ b
mentions_code t e h n name b at_mark unnamed =
    let marked = has_marker-codes_text e n b at_mark h.first h.next h.more h.unmarked in
    rw unnamed (rw h.reads (rw marked (ground arith)))

-- An error that the governance contract refuses a simulation with is turned into an instance of the
-- class that bears its name, and an error without such a class into a plain `Error`.
pub class-map_refusal :
    (method : String) (t : Thrown) (e : GovernanceError)
    → IsRefusal t e
    → (map_governance_simulation_error method t).class ≡ class_named e
class-map_refusal method t e h =
    let c = at_code e in
    class-map_governance_simulation_error method t
    ∙ rw
        (
          mentions_code t e h "3" "ProposalNotFound" _ (λ s. (c.0 s).0) h.unnamed.0,
          mentions_code t e h "4" "VotingNotActive" _ (λ s. (c.0 s).1) h.unnamed.1.0,
          mentions_code t e h "7" "ProposalNotPassed" _ (λ s. (c.0 s).2) h.unnamed.1.1.0,
          mentions_code t e h "12" "TimelockNotExpired" _ (λ s. (c.0 s).3) h.unnamed.1.1.1.0,
          mentions_code t e h "2" "Unauthorized" _ (λ s. (c.0 s).4) h.unnamed.1.1.1.1.0,
        )
        c.1
