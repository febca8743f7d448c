-- ===== src/Frontend/Env/Loading.antt =====
-- What an environment that is accepted guarantees.
use Prim.Native.String.{String}
use stellar_quorum.Base.{
  ◌≡◌, refl, ap, ◌∙◌, sym, Bool, true, false, ◌&&◌, ◌||◌, not, Option, none, some, List, [], ◌∷◌,
  ◌++◌, Bool-cases, inl, inr, ◌⊎◌,
}
use stellar_quorum.Base.Result.{ok}
use stellar_quorum.Frontend.Env.Strkey.{is_valid_contract_id}
use stellar_quorum.Frontend.Env.{
  EnvInput, AppEnv, problems, cleaned, app_env, load_env, unless_problems, unless_valid, is_set_to,
  is_unset, missing_problem, contract_problem,
}

append-eq-nil : (xs ys : List String) → xs ++ ys ≡ [] → (xs ≡ []) × (ys ≡ [])
append-eq-nil [] ys h = (refl, h)
append-eq-nil (x ∷ xs) ys h = cc

unless_valid-eq-nil :
    (valid : String → Bool) (message : String → String) (s : String)
    → unless_valid valid message (some s) ≡ []
    → valid s ≡ true
unless_valid-eq-nil valid message s h = elim (Bool-cases (valid s)) [
  | inl good ↦ good
  | inr bad ↦ let left = rw bad at h in cc
]

missing_problem-eq-nil : (b : Bool) → missing_problem b ≡ [] → b ≡ false
missing_problem-eq-nil true h = cc
missing_problem-eq-nil false h = refl

set_id_valid :
    (message : String → String) (o : Option String) (id : String)
    → o ≡ some id
    → unless_valid is_valid_contract_id message o ≡ []
    → is_valid_contract_id id ≡ true
set_id_valid message none id h k = cc
set_id_valid message (some s) id h k =
    let same : s ≡ id = cc in
    ap is_valid_contract_id (sym same) ∙ unless_valid-eq-nil is_valid_contract_id message s k

-- Whether the fixture is served, by what is set.
fixture_unless_set :
    (o flag : Option String)
    → (is_unset o && is_set_to "0" flag) ≡ false
    → ((is_set_to "1" flag || is_unset o && not (is_set_to "0" flag)) ≡ true)
      ⊎ ((id : String) × (o ≡ some id))
fixture_unless_set (some id) flag h = inr (id, refl)
fixture_unless_set none flag h = elim (Bool-cases (is_set_to "1" flag)) [
  | inl fixture ↦ inl (rw fixture refl)
  | inr other ↦ inl (rw (other, h) refl)
]

module _ (http_url : String → Bool) where
  unless_problems-eq-ok :
      (ps : List String) (made env : AppEnv)
      → unless_problems http_url ps made ≡ ok env
      → (ps ≡ []) × (made ≡ env)
  unless_problems-eq-ok [] made env h = (refl, cc)
  unless_problems-eq-ok (p ∷ ps) made env h = cc

  abbrev Ids : EnvInput → Type 0
  Ids i =
      (unless_valid is_valid_contract_id (contract_problem "NEXT_PUBLIC_GOVERNANCE_CONTRACT_ID")
          i.governance_contract_id
        ≡ [])
      × (unless_valid is_valid_contract_id (contract_problem "NEXT_PUBLIC_TOKEN_CONTRACT_ID")
            i.token_contract_id
          ≡ [])
      × ((is_unset i.governance_contract_id && is_set_to "0" i.use_fixture) ≡ false)

  problems-eq-nil : (i : EnvInput) → problems http_url i ≡ [] → Ids i
  unfolding problems
  problems-eq-nil i h =
      let without_site = append-eq-nil _ _ h in
      let without_passphrase = append-eq-nil _ _ without_site.0 in
      let without_rpc = append-eq-nil _ _ without_passphrase.0 in
      let with_missing = append-eq-nil _ _ without_rpc.0 in
      let with_token = append-eq-nil _ _ with_missing.0 in
      let with_governance = append-eq-nil _ _ with_token.0 in
      (
        with_governance.1,
        with_token.1,
        missing_problem-eq-nil (is_unset i.governance_contract_id && is_set_to "0" i.use_fixture)
            with_missing.1,
      )

  load_env-parts :
      (input : EnvInput) (env : AppEnv)
      → load_env http_url input ≡ ok env
      → Ids (cleaned http_url input) × (app_env http_url (cleaned http_url input) ≡ env)
  unfolding load_env
  load_env-parts input env h =
      let parts = unless_problems-eq-ok _ _ env h in
      (problems-eq-nil (cleaned http_url input) parts.0, parts.1)

  -- A contract id of an accepted environment, if it is set, is valid.
  pub load_env-valid_ids :
      (input : EnvInput) (env : AppEnv) (id : String)
      → load_env http_url input ≡ ok env
      → (env.governance_contract_id ≡ some id) ⊎ (env.token_contract_id ≡ some id)
      → is_valid_contract_id id ≡ true
  load_env-valid_ids input env id h (inl set) =
      let (ids, made) = load_env-parts input env h in
      let there = ap (λ (e : AppEnv). e.governance_contract_id) made ∙ set in
      set_id_valid _ _ id there ids.0
  load_env-valid_ids input env id h (inr set) =
      let (ids, made) = load_env-parts input env h in
      let there = ap (λ (e : AppEnv). e.token_contract_id) made ∙ set in
      set_id_valid _ _ id there ids.1

  -- An environment that is accepted either serves the fixture or has a valid governance contract.
  pub load_env-source :
      (input : EnvInput) (env : AppEnv)
      → load_env http_url input ≡ ok env
      → (env.use_fixture ≡ true)
        ⊎ ((id : String) × (env.governance_contract_id ≡ some id)
            × (is_valid_contract_id id ≡ true))
  load_env-source input env h =
      let (ids, made) = load_env-parts input env h in
      elim (fixture_unless_set (cleaned http_url input).governance_contract_id
        (cleaned http_url input).use_fixture ids.2) [
          | inl fixture ↦ inl (sym (ap (λ (e : AppEnv). e.use_fixture) made) ∙ fixture)
          | inr (id, set) ↦
              let there = sym (ap (λ (e : AppEnv). e.governance_contract_id) made) ∙ set in
              inr (id, there, load_env-valid_ids input env id h (inl there))
        ]
