-- ===== src/Sdk/Errors/Parsing.antt =====
-- What a host error is read as: the leftmost `Error(Contract, #N)` of its text.
use Prim.Native.Char.{Char, code}
use Prim.Native.String.{[], ◌∷◌}
use text.Mathlib.TextLemmas.{nil-append, cons-append}
use stellar_quorum.Base.{◌<◌, ℕ, String, ◌≡◌, ◌≢◌, ap, sym, ◌∙◌, none, some, arith, false}
use stellar_quorum.Base.Text.{◌<>◌, strip_prefix, includes, decimal, read_number, digits_from}
use stellar_quorum.Base.Text.Decimal.{read_number-decimal}
use stellar_quorum.Sdk.Errors.{
  opening, closed, code_here, contract_error_code_in, contract_error_code, parse_governance_error,
  parse_token_error, Thrown, text_of,
}
use stellar_quorum.Sdk.Errors.Codes.{
  GovernanceError, governance_code, governance_error_of, governance_error_of-governance_code,
  governance_error_of_past, token_error_of_past, TokenError, token_code, token_error_of,
  token_error_of-token_code,
}

strip_prefix-append : (p s : String) → strip_prefix p (p <> s) ≡ some s
unfolding strip_prefix
strip_prefix-append [] s = rw nil-append
strip_prefix-append (c ∷ p) s = rw cons-append (ground (arith, strip_prefix-append p s))

digits_from-close : (n : ℕ) (post : String) → digits_from n (")" <> post) ≡ (n, ")" <> post)
unfolding digits_from
digits_from-close n post = rw cons-append

closed-decimal : (n : ℕ) (post : String) → closed (read_number (decimal n <> ")" <> post)) ≡ some n
closed-decimal n post =
    rw (read_number-decimal n (")" <> post), digits_from-close n post, strip_prefix-append)

-- A text with no opening cannot complete one by what follows, since the opening has a single `E`.
abbrev NoE : String → Type 0
NoE [] = Unit
NoE (c ∷ s) = (code c ≢ 69) × NoE s

strip_prefix_of_NoE :
    (p s t : String) → NoE p → strip_prefix p s ≡ none → strip_prefix p (s <> "E" <> t) ≡ none
unfolding strip_prefix
strip_prefix_of_NoE [] s t h e = cc
strip_prefix_of_NoE (c ∷ p) [] t h e = rw (nil-append, cons-append) (ground arith)
strip_prefix_of_NoE (c ∷ p) (d ∷ s) t h e =
    rw cons-append (ground (arith, strip_prefix_of_NoE p s t h.1))

strip_prefix-cons_of_NoE :
    (e c : Char) (p s t : String)
    → NoE p
    → strip_prefix (e ∷ p) (c ∷ s) ≡ none
    → strip_prefix (e ∷ p) (c ∷ (s <> "E" <> t)) ≡ none
unfolding strip_prefix
strip_prefix-cons_of_NoE e c p s t h none_here = ground (arith, strip_prefix_of_NoE p s t h)

opening-append : (t : String) → opening <> t ≡ "E" <> "rror(Contract, #" <> t
opening-append t =
    cons-append "E" "rror(Contract, #" t
    ∙ sym (cons-append "E" [] ("rror(Contract, #" <> t) ∙ ap (λ r. "E" ∷ r) (nil-append _))

code_here-opening :
    (n : ℕ) (post : String) → code_here (opening <> decimal n <> ")" <> post) ≡ some n
unfolding code_here
code_here-opening n post =
    rw (strip_prefix-append opening (decimal n <> ")" <> post)) (closed-decimal n post)

contract_error_code_in_here :
    (s : String) (n : ℕ) → code_here s ≡ some n → contract_error_code_in s ≡ some n
unfolding contract_error_code_in
contract_error_code_in_here [] n h = unfold code_here strip_prefix in cc
contract_error_code_in_here (c ∷ s) n h = rw h

pub includes-cons_false :
    (p : String) (c : Char) (s : String)
    → includes p (c ∷ s) ≡ false
    → (strip_prefix p (c ∷ s) ≡ none) × (includes p s ≡ false)
unfolding includes strip_prefix
includes-cons_false p c s h = ground arith

code_here-cons :
    (c : Char) (s t : String)
    → strip_prefix opening (c ∷ s) ≡ none
    → code_here (c ∷ (s <> opening <> t)) ≡ none
unfolding code_here
code_here-cons c s t h = rw (
  opening-append t,
  strip_prefix-cons_of_NoE "E" c "rror(Contract, #" s ("rror(Contract, #" <> t) (omega arith) h,
)

contract_error_code_in-cons :
    (c : Char) (s : String)
    → code_here (c ∷ s) ≡ none
    → contract_error_code_in (c ∷ s) ≡ contract_error_code_in s
unfolding contract_error_code_in
contract_error_code_in-cons c s h = rw h

-- The code of a host error is found wherever it stands, if no other opening comes before it.
pub contract_error_code_in-append :
    (pre post : String) (n : ℕ)
    → includes opening pre ≡ false
    → contract_error_code_in (pre <> opening <> decimal n <> ")" <> post) ≡ some n
contract_error_code_in-append [] post n h =
    rw nil-append (contract_error_code_in_here _ n (code_here-opening n post))
contract_error_code_in-append (c ∷ pre) post n h =
    let (no_match, later) = includes-cons_false opening c pre h in
    rw cons-append (
      contract_error_code_in-cons c _ (code_here-cons c pre (decimal n <> ")" <> post) no_match)
      ∙ contract_error_code_in-append pre post n later)

-- A thrown value whose text is a host error with the code `n`, and no earlier opening.
pub record IsHostError (t : Thrown) (n : ℕ) : Type 0 where
  pub pre : String
  pub post : String
  pub first : includes opening pre ≡ false
  pub reads : text_of t ≡ pre <> opening <> decimal n <> ")" <> post

contract_error_code_of_host :
    (t : Thrown) (n : ℕ) → IsHostError t n → contract_error_code t ≡ some n
unfolding contract_error_code
contract_error_code_of_host t n h =
    rw h.reads (contract_error_code_in-append h.pre h.post n h.first)

parse_of_host :
    (t : Thrown) (n : ℕ)
    → IsHostError t n
    → (parse_governance_error t ≡ governance_error_of n) × (parse_token_error t ≡ token_error_of n)
unfolding parse_governance_error parse_token_error
parse_of_host t n h =
    let e = contract_error_code_of_host t n h in
    (rw (e, parse_governance_error), rw (e, parse_token_error))

-- Whatever text surrounds it, a host error with the code of a member of `GovernanceError` is
-- parsed as that member, if no other opening `Error(Contract, #` stands before the code.
pub parse_governance_error-governance_code :
    (t : Thrown) (e : GovernanceError)
    → IsHostError t (governance_code e)
    → parse_governance_error t ≡ some e
parse_governance_error-governance_code t e h =
    (parse_of_host t (governance_code e) h).0 ∙ governance_error_of-governance_code e

-- The same for the token contract and `TokenError`.
pub parse_token_error-token_code :
    (t : Thrown) (e : TokenError) → IsHostError t (token_code e) → parse_token_error t ≡ some e
parse_token_error-token_code t e h =
    (parse_of_host t (token_code e) h).1 ∙ token_error_of-token_code e

-- A host error with a code past 34 is read as no governance error.
pub parse_governance_error_past_last :
    (t : Thrown) (n : ℕ) → IsHostError t n → 34 < n → parse_governance_error t ≡ none
parse_governance_error_past_last t n h late =
    (parse_of_host t n h).0 ∙ governance_error_of_past n late

-- A host error with a code past 9 is read as no token error.
pub parse_token_error_past_last :
    (t : Thrown) (n : ℕ) → IsHostError t n → 9 < n → parse_token_error t ≡ none
parse_token_error_past_last t n h late = (parse_of_host t n h).1 ∙ token_error_of_past n late
