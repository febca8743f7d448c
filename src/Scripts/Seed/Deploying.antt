-- ===== src/Scripts/Seed/Deploying.antt =====
-- The accounts and contracts of scripts/seed-demo-proposals.mjs. The key pairs of the
-- demo accounts are random, so their addresses are arguments.
use text.Mathlib.Text.{◌==◌ as same_text}
use Prim.Native.Char.{code}
use Prim.Native.String as S
use stellar_quorum.Base.{
  ℕ, zero, suc, String, Bool, true, false, ◌&&◌, ◌==◌, not, ltb, Option, none, some, List, [], ◌∷◌,
  if◌then◌else◌,
}
use stellar_quorum.Base.Result.{Result, ok, err}
use stellar_quorum.Base.Text.{◌<>◌, decimal, is_word}
use stellar_quorum.Frontend.Env.{first_chars}
use stellar_quorum.Frontend.Env.Strkey.{is_base32, text_length}
use stellar_quorum.Sdk.Errors.{Thrown}
use stellar_quorum.Scripts.Script.{Script, pure, throw_error, ◌>>=◌, ◌>>◌, attempt, throw_when}
use stellar_quorum.Scripts.Seed.{
  Value, address, string, u32, u64, i128, Network, invoke, read, trim,
}

abbrev drop_chars : ℕ → String → String
drop_chars zero s = s
drop_chars (suc n) S.[] = S.[]
drop_chars (suc n) (S.◌∷◌ c cs) = drop_chars n cs

-- `\b` behind a word: what follows is no word character.
abbrev ends_word : String → Bool
ends_word S.[] = true
ends_word (S.◌∷◌ c cs) = not (is_word c)

-- `C[A-Z2-7]{55}\b` at the head of the text.
abbrev starts_with_id : String → Bool
starts_with_id S.[] = false
starts_with_id (S.◌∷◌ c cs) =
    code c == 67
    && text_length (first_chars 55 cs) == 55
    && is_base32 (first_chars 55 cs)
    && ends_word (drop_chars 55 cs)

-- The last of the matches, if any, in the text behind a word character or not. A match has only word
-- characters, so that none begins inside another.
unfoldable pub last_id : Bool → Option String → String → Option String
last_id in_word found S.[] = found
last_id in_word found (S.◌∷◌ c cs) =
    last_id (is_word c)
      (if not in_word && starts_with_id (S.◌∷◌ c cs)
        then some (first_chars 56 (S.◌∷◌ c cs))
        else found)
      cs

unfoldable pub parse_contract_id : String → Option String
unfolding last_id
parse_contract_id output = last_id false none output

-- The fields of the contract's configuration and of a proposal that the script reads.
pub record Config : Type 0 where
  pub token : String
  pub voting_period : ℕ
  pub proposal_threshold : ℕ

-- A unit variant is a vector with its name.
pub data RawStatus : Type 0 where
  variant name : String → RawStatus

pub record DemoProposal : Type 0 where
  pub id : ℕ
  pub title : String
  pub status : String
  pub start_ledger : ℕ
  pub end_ledger : ℕ
  pub queue_ledger : ℕ
  pub for_votes : ℕ
  pub against_votes : ℕ
  pub abstain_votes : ℕ
  pub quorum_required : ℕ

abbrev pub decode_status : RawStatus → String
decode_status (variant s) = s
decode_status (name s) = s

-- A decoded answer as what the script takes it for; a proposal's status is apart.
pub record Decoding (Native : Type 0) : Type 0 where
  pub as_config : Native → Config
  pub as_number : Native → ℕ
  pub as_proposal : Native → DemoProposal
  pub as_status : Native → RawStatus

-- The script's environment and what it runs with. `deploy wasm secret` is the Stellar CLI: its output,
-- or the text of its failure.
pub record Setup (W : Type 0) : Type 0 where
  pub existing_governance : String
  pub existing_token : String
  pub token_admin_secret : String
  pub voting_period : ℕ
  pub timelock_period : ℕ
  pub token_wasm : String
  pub governance_wasm : String
  pub wasm_exists : String → Bool
  pub deploy : String → String → W → W × Result String String
  pub address_of_secret : String → Result Thrown String
  pub alice : String
  pub alice_secret : String
  pub bob : String
  pub carol : String
  pub rounds : ℕ

pub record Deployment : Type 0 where
  pub token : String
  pub governance : String
  pub config : Config

abbrev pub max_waitable_voting_period : ℕ
max_waitable_voting_period = 200

abbrev pub initial_supply : ℕ
initial_supply = 1000000

module _ {W Native : Type 0} (net : Network W Native) (decoding : Decoding Native)
    (setup : Setup W) where
  abbrev call : List String → String → String → List Value → String → Script W (Unit {0})
  call keys contract method arguments source =
      invoke net setup.rounds keys contract method arguments source

  abbrev pub with_id : String → Option String → Script W String
  with_id output none =
      throw_error ("could not read a contract id from the Stellar CLI output:\n" <> trim output)
  with_id output (some id) = pure id

  abbrev pub deployed : Result String String → Script W String
  deployed (err detail) = throw_error ("stellar contract deploy failed: " <> trim detail)
  deployed (ok output) = with_id output (parse_contract_id output)

  unfoldable pub deploy_contract : String → String → Script W String
  deploy_contract wasm secret = attempt (setup.deploy wasm secret) >>= deployed

  unfoldable pub get_proposal : String → ℕ → Script W DemoProposal
  get_proposal governance id = do
    raw ← read net governance "get_proposal" (u64 id ∷ [])
    pure (record (decoding.as_proposal raw) { status = decode_status (decoding.as_status raw) })

  unfoldable pub get_config : String → Script W Config
  get_config governance = do
    raw ← read net governance "get_config" []
    pure (decoding.as_config raw)

  unfoldable pub use_existing : Script W Deployment
  use_existing = do
    config ← get_config setup.existing_governance
    throw_when (ltb max_waitable_voting_period config.voting_period) (
        "the governance contract's voting period is "
        <> decimal config.voting_period
        <> " ledgers, which this script will not wait out (the limit is "
        <> decimal max_waitable_voting_period
        <> "). Point the script at a contract with a short voting period, or leave QUORUM_GOVERNANCE_CONTRACT unset to deploy a fresh one.")
    pure (record {
      token = if same_text setup.existing_token "" then config.token else setup.existing_token;
      governance = setup.existing_governance;
      config = config;
    })

  abbrev pub missing : String → String
  missing wasm =
      wasm
      <> " is missing. Build the contracts first:\n  cd contracts && cargo build --target wasm32-unknown-unknown --release"

  abbrev pub needs_wasm : String → Script W (Unit {0})
  needs_wasm wasm = throw_when (not (setup.wasm_exists wasm)) (missing wasm)

  abbrev pub token_values : List Value
  token_values =
      address setup.alice ∷ string "Quorum" ∷ string "QUORUM" ∷ u32 7 ∷ i128 initial_supply ∷ []

  abbrev pub governance_values : String → List Value
  governance_values token =
      address setup.alice
      ∷ address setup.alice
      ∷ address token
      ∷ u32 500
      ∷ u32 setup.voting_period
      ∷ u32 setup.timelock_period
      ∷ u32 1000
      ∷ i128 100000
      ∷ []

  unfoldable pub deploy_fresh : List String → Script W Deployment
  deploy_fresh keys = do
    needs_wasm setup.token_wasm
    needs_wasm setup.governance_wasm
    token ← deploy_contract setup.token_wasm setup.alice_secret
    governance ← deploy_contract setup.governance_wasm setup.alice_secret
    call keys token "initialize" token_values setup.alice
    call keys governance "initialize" (governance_values token) setup.alice
    config ← get_config governance
    pure (record { token = token; governance = governance; config = config })
