-- ===== src/Scripts/Seed/Steps.antt =====
-- The steps of the script that send neither a finalize nor an execute call keep the order.
use stellar_quorum.Base.{ℕ, String, not, Option, none, some, List, [], ◌∷◌}
use stellar_quorum.Base.Result.{Result, ok, err}
use stellar_quorum.Sdk.Errors.{Thrown}
use stellar_quorum.Scripts.Script.{Script}
use stellar_quorum.Scripts.Seed.{
  Value, u64, Network, FriendbotAnswer, fund_account, funded, or_refuse, invoke, wait_for_ledger,
}
use stellar_quorum.Scripts.Seed.Deploying.{
  Decoding, Setup, get_proposal, get_config, use_existing, deploy_fresh, deploy_contract,
  needs_wasm, token_values, governance_values, missing, decode_status, deployed, with_id,
  parse_contract_id,
}
use stellar_quorum.Scripts.Seed.Keeping.{
  IsHarmless, attempt-Keeps, Keeps, >>=-Keeps, >>-Keeps, pure-Keeps, throw_error-Keeps,
  throw_when-Keeps, if-Keeps, invoke-Keeps, read-Keeps, wait_for_ledger-Keeps,
}
use stellar_quorum.Scripts.Seed.Ordering.{
  Log, recorded, recorded_setup, IsOrdered, Holds, recorded-IsHarmless, Allowed,
}
use stellar_quorum.Scripts.Seed.Timeliness.{Ordered-Lasts}

module _ {W Native : Type 0} (net : Network W Native) (decoding : Decoding Native)
    (setup : Setup W) where
  abbrev pub Kept : {A : Type 0} → Script (W × Log Native) A → Type 0
  Kept script = Keeps (Holds net (λ log. IsOrdered decoding log)) script

  abbrev pub O : W × Log Native → Type 0
  O = Holds net (λ log. IsOrdered decoding log)

  abbrev pub rec : Network (W × Log Native) Native
  rec = recorded net

  abbrev pub set_up : Setup (W × Log Native)
  set_up = recorded_setup setup

  pub harmless : IsHarmless O rec
  harmless =
      recorded-IsHarmless net (λ log. IsOrdered decoding log)
        (Ordered-Lasts net decoding setup [] "")

  -- A call of any other method is free.
  pub call-Kept :
      (keys : List String) (contract method : String) (arguments : List Value) (source : String)
      → ((log : Log Native)
          → Allowed decoding
              (record {
                contract = contract;
                method = method;
                arguments = arguments;
                source = source;
              })
              log)
      → Kept (invoke rec setup.rounds keys contract method arguments source)
  call-Kept keys contract method arguments source free =
      invoke-Keeps O rec harmless setup.rounds keys contract method arguments source
        (λ auth s o. (free s.1, o))

  or_refuse-Kept :
      (a : String) (answer : FriendbotAnswer) (r : Result Thrown (Unit {0}))
      → Kept (or_refuse rec a answer r)
  or_refuse-Kept a answer (ok _) = pure-Keeps O
  or_refuse-Kept a answer (err _) = throw_error-Keeps O

  funded-Kept : (a : String) (r : Result Thrown FriendbotAnswer) → Kept (funded rec a r)
  funded-Kept a (err e) = throw_error-Keeps O
  funded-Kept a (ok answer) = if-Keeps O answer.is_ok (pure-Keeps O) (
      >>=-Keeps O (attempt-Keeps O (rec.get_account a) (harmless.get_account a))
        (or_refuse-Kept a answer))

  pub fund_account-Kept : (a : String) → Kept (fund_account rec a)
  unfolding fund_account
  fund_account-Kept a =
      >>=-Keeps O (attempt-Keeps O (rec.friendbot a) (harmless.friendbot a)) (funded-Kept a)

  pub get_proposal-Kept :
      (governance : String) (id : ℕ) → Kept (get_proposal rec decoding set_up governance id)
  unfolding get_proposal
  get_proposal-Kept governance id =
      >>=-Keeps O (read-Keeps O rec harmless governance "get_proposal" (u64 id ∷ [])) λ raw.
        pure-Keeps O
          {a = record (decoding.as_proposal raw) {
            status = decode_status (decoding.as_status raw);
          }}

  get_config-Kept : (governance : String) → Kept (get_config rec decoding set_up governance)
  unfolding get_config
  get_config-Kept governance =
      >>=-Keeps O (read-Keeps O rec harmless governance "get_config" [])
        λ raw. pure-Keeps O {a = decoding.as_config raw}

  pub wait-Kept : (target : ℕ) → Kept (wait_for_ledger rec setup.rounds target)
  wait-Kept target = wait_for_ledger-Keeps O rec harmless setup.rounds target

  pub use_existing-Kept : Kept (use_existing rec decoding set_up)
  unfolding use_existing
  use_existing-Kept =
      >>=-Keeps O (get_config-Kept setup.existing_governance)
        λ config. >>-Keeps O (throw_when-Keeps O _ _) (pure-Keeps O)

  with_id-Kept :
      (output : String) (id : Option String) → Kept (with_id rec decoding set_up output id)
  with_id-Kept output none = throw_error-Keeps O
  with_id-Kept output (some id) = pure-Keeps O

  deployed-Kept : (r : Result String String) → Kept (deployed rec decoding set_up r)
  deployed-Kept (err detail) = throw_error-Keeps O
  deployed-Kept (ok output) = with_id-Kept output (parse_contract_id output)

  deploy_contract-Kept : (wasm key : String) → Kept (deploy_contract rec decoding set_up wasm key)
  unfolding deploy_contract
  deploy_contract-Kept wasm key =
      >>=-Keeps O (attempt-Keeps O (set_up.deploy wasm key) (λ s o. o)) deployed-Kept

  needs_wasm-Kept : (wasm : String) → Kept (needs_wasm rec decoding set_up wasm)
  needs_wasm-Kept wasm =
      throw_when-Keeps O (not (setup.wasm_exists wasm)) (missing rec decoding set_up wasm)

  pub deploy_fresh-Kept : (keys : List String) → Kept (deploy_fresh rec decoding set_up keys)
  unfolding deploy_fresh
  deploy_fresh-Kept keys = >>-Keeps O (needs_wasm-Kept setup.token_wasm) (
      >>-Keeps O (needs_wasm-Kept setup.governance_wasm) (
        >>=-Keeps O (deploy_contract-Kept setup.token_wasm setup.alice_secret) λ token.
          >>=-Keeps O (deploy_contract-Kept setup.governance_wasm setup.alice_secret) λ governance.
            >>-Keeps O
              (call-Kept keys token "initialize" (token_values rec decoding set_up) setup.alice
                (λ log. (tt, tt)))
              (>>-Keeps O
                (call-Kept keys governance "initialize"
                  (governance_values rec decoding set_up token) setup.alice (λ log. (tt, tt)))
                (>>=-Keeps O (get_config-Kept governance) λ config.
                  pure-Keeps O
                    {a = record { token = token; governance = governance; config = config }}))))
