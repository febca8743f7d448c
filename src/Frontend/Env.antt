-- ===== src/Frontend/Env.antt =====
-- frontend/lib/env.ts: the environment, validated. `http_url` is `isValidHttpUrl`, whose URL parser is
-- the platform's. White space beyond ASCII is not trimmed here.
pub mod Strkey
pub mod Loading
mod Tests
use Prim.Native.Char.{Char, code}
use Prim.Native.String.{String}
use Prim.Native.String as S
use text.Mathlib.Text.{◌==◌ as same_text}
use stellar_quorum.Base.{
  ℕ, zero, suc, Bool, true, false, ◌&&◌, ◌||◌, not, Option, none, some, List, [], ◌∷◌, ◌++◌,
  if◌then◌else◌, ltb, leb, ◌==◌, get_or,
}
use stellar_quorum.Base.Result.{Result, ok, err}
use stellar_quorum.Base.Text.{◌<>◌}
use Strkey.{is_valid_contract_id, text_length}

abbrev pub default_rpc_url : String
default_rpc_url = "https://soroban-testnet.stellar.org"

abbrev pub default_network_passphrase : String
default_network_passphrase = "Test SDF Network ; September 2015"

abbrev pub default_site_url : String
default_site_url = "https://quorum.stellar.org"

pub record EnvInput : Type 0 where
  pub governance_contract_id : Option String
  pub token_contract_id : Option String
  pub rpc_url : Option String
  pub network_passphrase : Option String
  pub use_fixture : Option String
  pub site_url : Option String

pub record AppEnv : Type 0 where
  pub use_fixture : Bool
  pub governance_contract_id : Option String
  pub token_contract_id : Option String
  pub stellar_rpc_url : String
  pub network_passphrase : String
  pub site_url : String

abbrev pub is_space : Char → Bool
is_space c = code c == 32 || leb 9 (code c) && leb (code c) 13

abbrev is_slash : Char → Bool
is_slash c = code c == 47

unfoldable pub trim_start : (Char → Bool) → String → String
trim_start p S.[] = S.[]
trim_start p (S.◌∷◌ c cs) = let rest = trim_start p cs in if p c then rest else S.◌∷◌ c cs

unfoldable pub trim_end : (Char → Bool) → String → String
trim_end p S.[] = S.[]
trim_end p (S.◌∷◌ c cs) =
    let rest = trim_end p cs in if same_text rest "" && p c then S.[] else S.◌∷◌ c rest

abbrev set_or_none : String → Option String
set_or_none s = if same_text s "" then none else some s

-- A blank variable is unset.
unfoldable pub clean : Option String → Option String
clean none = none
clean (some s) = set_or_none (trim_end is_space (trim_start is_space s))

-- `value.slice(0, n)`
abbrev pub first_chars : ℕ → String → String
first_chars zero s = S.[]
first_chars (suc n) S.[] = S.[]
first_chars (suc n) (S.◌∷◌ c cs) = S.◌∷◌ c (first_chars n cs)

unfoldable pub preview : String → String
preview s = if leb (text_length s) 64 then "\"" <> s <> "\"" else "\"" <> first_chars 12 s <> "…\""

-- `problems.push(message)` for a value that is set and fails its test.
abbrev pub unless_valid : (String → Bool) → (String → String) → Option String → List String
unless_valid valid message none = []
unless_valid valid message (some s) = if valid s then [] else message s ∷ []

abbrev pub is_flag : String → Bool
is_flag s = same_text s "0" || same_text s "1"

abbrev flag_problem : String → String
flag_problem s = "NEXT_PUBLIC_USE_FIXTURE must be \"0\" or \"1\", got " <> preview s

abbrev pub contract_problem : String → String → String
contract_problem name s =
    name
    <> " must be a Stellar contract ID (a 56-character strkey starting with C), got "
    <> preview s

abbrev url_problem : String → String → String
url_problem name s = name <> " must be an absolute http(s) URL, got " <> preview s

abbrev is_long_enough : String → Bool
is_long_enough s = not (ltb (text_length s) 2)

abbrev short_problem : String → String
short_problem s = "NEXT_PUBLIC_STELLAR_NETWORK_PASSPHRASE is too short to be a network passphrase."

abbrev pub is_set_to : String → Option String → Bool
is_set_to v none = false
is_set_to v (some s) = same_text s v

abbrev pub is_unset : Option String → Bool
is_unset none = true
is_unset (some s) = false

abbrev pub missing_problem : Bool → List String
missing_problem false = []
missing_problem true =
    "NEXT_PUBLIC_GOVERNANCE_CONTRACT_ID is required when NEXT_PUBLIC_USE_FIXTURE=0. Set it to the deployed governance contract."
    ∷ []

module _ (http_url : String → Bool) where
  -- The problems of the cleaned values, in the order of the tests.
  unfoldable pub problems : EnvInput → List String
  problems i =
      unless_valid is_flag flag_problem i.use_fixture
      ++ unless_valid is_valid_contract_id (contract_problem "NEXT_PUBLIC_GOVERNANCE_CONTRACT_ID")
          i.governance_contract_id
      ++ unless_valid is_valid_contract_id (contract_problem "NEXT_PUBLIC_TOKEN_CONTRACT_ID")
          i.token_contract_id
      ++ missing_problem (is_unset i.governance_contract_id && is_set_to "0" i.use_fixture)
      ++ unless_valid http_url (url_problem "NEXT_PUBLIC_STELLAR_RPC_URL") i.rpc_url
      ++ unless_valid is_long_enough short_problem i.network_passphrase
      ++ unless_valid http_url (url_problem "NEXT_PUBLIC_SITE_URL") i.site_url

  abbrev pub cleaned : EnvInput → EnvInput
  cleaned i = record {
    governance_contract_id = clean i.governance_contract_id;
    token_contract_id = clean i.token_contract_id;
    rpc_url = clean i.rpc_url;
    network_passphrase = clean i.network_passphrase;
    use_fixture = clean i.use_fixture;
    site_url = clean i.site_url;
  }

  abbrev pub app_env : EnvInput → AppEnv
  app_env i = record {
    use_fixture =
        is_set_to "1" i.use_fixture
        || is_unset i.governance_contract_id && not (is_set_to "0" i.use_fixture);
    governance_contract_id = i.governance_contract_id;
    token_contract_id = i.token_contract_id;
    stellar_rpc_url = get_or i.rpc_url default_rpc_url;
    network_passphrase = get_or i.network_passphrase default_network_passphrase;
    site_url = trim_end is_slash (get_or i.site_url default_site_url);
  }

  abbrev pub unless_problems : List String → AppEnv → Result (List String) AppEnv
  unless_problems [] env = ok env
  unless_problems (p ∷ ps) env = err (p ∷ ps)

  -- A failure is the problems of the `EnvError`.
  unfoldable pub load_env : EnvInput → Result (List String) AppEnv
  load_env input = unless_problems (problems (cleaned input)) (app_env (cleaned input))
