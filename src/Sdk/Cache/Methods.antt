-- ===== src/Sdk/Cache/Methods.antt =====
-- Invalidating a method removes the entries of that method and no others: a method's name is told
-- from the longer names that begin with it by the colon behind it.
use Prim.Native.Char.{Char, code}
use Prim.Native.String.{[] as nil, ◌∷◌ as cons}
use text.Mathlib.Text.{◌==◌ as same_text}
use text.Mathlib.TextEquality.{eq_iff, Char-path}
use text.Mathlib.TextLemmas.{nil-append, cons-append, cons-eq-cons}
use stellar_quorum.Base.{
  ℕ, ◌≡◌, ◌≢◌, ◌↔◌, refl, ap, Bool, true, false, none, some, List, [], ◌∷◌, arith, if◌then◌else◌,
  String, Bool-cases, inl, inr, keep, get_elem?, ◌==◌, ==_iff, ◌∙◌, sym,
}
use stellar_quorum.Base.Text.{◌<>◌, strip_prefix, has_prefix}
use stellar_quorum.Sdk.Types.{
  ReadMethod, get_proposal, get_proposal_count, get_config, get_vote, get_latest_ledger,
  get_voting_power, get_balance, get_token_decimals, balance, get_past_balance, allowance,
  total_supply,
}
use stellar_quorum.Sdk.Cache.Key.{
  Argument, key, method_name, method_prefix, method_index, json_array,
}
use stellar_quorum.Sdk.Cache.EntryMap.{Entries, get}
use stellar_quorum.Sdk.Cache.{Entry, ReadCache, invalidate_method, not_of_method}

abbrev NoColon : String → Type 0
NoColon nil = Unit
NoColon (cons c s) = (code c ≢ 58) × NoColon s

has_prefix-cons :
    (c d : Char) (a t : String)
    → has_prefix (cons c a) (cons d t) ≡ (if code c == code d then has_prefix a t else false)
unfolding has_prefix strip_prefix
has_prefix-cons c d a t = ground arith

colon_in_front : (j : String) → ":" <> j ≡ cons ":" j
colon_in_front j = cons-append ":" nil j ∙ ap (cons ":") (nil-append j)

has_prefix-true :
    (a b j : String)
    → NoColon a
    → NoColon b
    → has_prefix (a <> ":") (b <> cons ":" j) ≡ true
    → a ≡ b
has_prefix-true nil nil j h k e = refl
has_prefix-true nil (cons d b) j h k e =
    absurd (ground (arith, rw (nil-append, cons-append, has_prefix-cons) at e))
has_prefix-true (cons c a) nil j h k e =
    absurd (ground (arith, rw (cons-append, nil-append, has_prefix-cons) at e))
has_prefix-true (cons c a) (cons d b) j h k e =
    let e' = rw (cons-append, cons-append, has_prefix-cons) at e in
    elim (Bool-cases (code c == code d)) [
      | inl same ↦
          cons-eq-cons.1
            (Char-path c d ((==_iff _ _).0 same), has_prefix-true a b j h.1 k.1 (rw same at e'))
      | inr other ↦ absurd (ground arith)
    ]

has_prefix_self : (a j : String) → has_prefix (a <> ":") (a <> cons ":" j) ≡ true
has_prefix_self nil j =
    rw (nil-append, nil-append, has_prefix-cons) (unfold has_prefix strip_prefix in refl)
has_prefix_self (cons c a) j =
    rw (cons-append, cons-append, has_prefix-cons) (ground (arith, has_prefix_self a j))

method_name-NoColon : (m : ReadMethod) → NoColon (method_name m)
unfolding method_name
method_name-NoColon get_proposal = omega arith
method_name-NoColon get_proposal_count = omega arith
method_name-NoColon get_config = omega arith
method_name-NoColon get_vote = omega arith
method_name-NoColon get_latest_ledger = omega arith
method_name-NoColon get_voting_power = omega arith
method_name-NoColon get_balance = omega arith
method_name-NoColon get_token_decimals = omega arith
method_name-NoColon balance = omega arith
method_name-NoColon get_past_balance = omega arith
method_name-NoColon allowance = omega arith
method_name-NoColon total_supply = omega arith

index_named : String → ℕ
index_named s =
    if same_text s "getProposal"
    then 0
    else if same_text s "getProposalCount"
    then 1
    else if same_text s "getConfig"
    then 2
    else if same_text s "getVote"
    then 3
    else if same_text s "getLatestLedger"
    then 4
    else if same_text s "getVotingPower"
    then 5
    else if same_text s "getBalance"
    then 6
    else if same_text s "getTokenDecimals"
    then 7
    else if same_text s "balance"
    then 8
    else if same_text s "getPastBalance"
    then 9
    else if same_text s "allowance"
    then 10
    else 11

index_named-method_name : (m : ReadMethod) → index_named (method_name m) ≡ method_index m
unfolding index_named method_name
index_named-method_name get_proposal = refl
index_named-method_name get_proposal_count = refl
index_named-method_name get_config = refl
index_named-method_name get_vote = refl
index_named-method_name get_latest_ledger = refl
index_named-method_name get_voting_power = refl
index_named-method_name get_balance = refl
index_named-method_name get_token_decimals = refl
index_named-method_name balance = refl
index_named-method_name get_past_balance = refl
index_named-method_name allowance = refl
index_named-method_name total_supply = refl

names : List String
names =
    "getProposal" ∷ "getProposalCount" ∷ "getConfig" ∷ "getVote" ∷ "getLatestLedger"
    ∷ "getVotingPower" ∷ "getBalance" ∷ "getTokenDecimals" ∷ "balance" ∷ "getPastBalance"
    ∷ "allowance" ∷ "totalSupply" ∷ []

name_at-method_index : (m : ReadMethod) → get_elem? names (method_index m) ≡ some (method_name m)
unfolding names method_name
name_at-method_index get_proposal = refl
name_at-method_index get_proposal_count = refl
name_at-method_index get_config = refl
name_at-method_index get_vote = refl
name_at-method_index get_latest_ledger = refl
name_at-method_index get_voting_power = refl
name_at-method_index get_balance = refl
name_at-method_index get_token_decimals = refl
name_at-method_index balance = refl
name_at-method_index get_past_balance = refl
name_at-method_index allowance = refl
name_at-method_index total_supply = refl

same_some : (a b : String) → some a ≡ some b → a ≡ b
same_some a b e = cc

method_name-index :
    (m n : ReadMethod) → (method_name m ≡ method_name n) ↔ (method_index m ≡ method_index n)
method_name-index m n = (
  λ e. sym (index_named-method_name m) ∙ ap index_named e ∙ index_named-method_name n,
  λ e.
      same_some _ _
        (sym (name_at-method_index m) ∙ ap (get_elem? names) e ∙ name_at-method_index n),
)

eq_of_iff : (a b : Bool) → (a ≡ true) ↔ (b ≡ true) → a ≡ b
eq_of_iff true b h = sym (h.0 refl)
eq_of_iff false true h = h.1 refl
eq_of_iff false false h = refl

has_prefix-name :
    (m n : ReadMethod) (j : String)
    → (has_prefix (method_name m <> ":") (method_name n <> ":" <> j) ≡ true)
      ↔ ((method_index m == method_index n) ≡ true)
has_prefix-name m n j = (
  λ e. (==_iff _ _).1 (
      (method_name-index m n).0 (
        has_prefix-true _ _ j (method_name-NoColon m) (method_name-NoColon n)
          (rw colon_in_front at e))),
  λ e.
      rw (colon_in_front, (method_name-index m n).1 ((==_iff _ _).0 e))
        (has_prefix_self (method_name n) j),
)

has_prefix-key :
    (m n : ReadMethod) (arguments : List Argument)
    → has_prefix (method_prefix m) (key n arguments) ≡ (method_index m == method_index n)
has_prefix-key m n arguments =
    eq_of_iff _ _ (unfold method_prefix key in has_prefix-name m n (json_array arguments))

get-keep_of_method :
    {V : Type 0} (m : ReadMethod) (k : String) (es : Entries (Entry V))
    → get k (keep (not_of_method m) es)
      ≡ (if has_prefix (method_prefix m) k then none else get k es)
unfolding get
get-keep_of_method m k [] = ground arith
get-keep_of_method m k ((j, e) ∷ es) = elim (Bool-cases (same_text j k)) [
  | inl same ↦ rw ((eq_iff j k).0 same) (ground (arith, get-keep_of_method m k es, eq_iff k k))
  | inr other ↦ ground (arith, other, get-keep_of_method m k es)
]

-- After `invalidate(method)` the cache has lost every entry of that method, whatever its arguments,
-- and has the entries of all other methods as before.
pub get-invalidate_method :
    {V : Type 0} (m n : ReadMethod) (arguments : List Argument) (c : ReadCache V)
    → get (key n arguments) (invalidate_method m c).entries
      ≡ (if method_index m == method_index n then none else get (key n arguments) c.entries)
unfolding invalidate_method
get-invalidate_method m n arguments c =
    get-keep_of_method m (key n arguments) c.entries
    ∙ ap (λ b. if b then none else get (key n arguments) c.entries) (has_prefix-key m n arguments)
