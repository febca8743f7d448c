-- ===== src/Frontend/Env/Tests.antt =====
-- Contract ids and environments, and the properties at inputs that meet their premises.
use Prim.Native.String.{String}
use mathlib.Core.List.{List}
use stellar_quorum.Base.{ℕ, ◌≡◌, refl, Bool, true, false, none, some, ◌⊎◌, length, [], ◌∷◌}
use stellar_quorum.Base.Result.{ok}
use stellar_quorum.Base.Text.{has_prefix}
use stellar_quorum.Frontend.Env.{EnvInput, AppEnv, load_env, problems, clean, trim_start, trim_end}
use stellar_quorum.Frontend.Env.Strkey.{
  base32_decode, decode_from, crc16_xmodem, crc_from, is_valid_strkey, is_valid_contract_id,
  checked,
}
use stellar_quorum.Frontend.Env.Strkey.Lengths.{is_valid_contract_id_bytes}
use stellar_quorum.Frontend.Env.Loading.{load_env-source}

abbrev zero_id : String
zero_id = "CAAAAAAAAAAAAAAAAAAAAAAAAAAAAAAAAAAAAAAAAAAAAAAAAAAAD2KM"

abbrev swapped_id : String
swapped_id = "CAAAAAAAAAAAAAAAAAAAAAAAAAAAAAAAAAAAAAAAAAAAAAAAAAAAD2MK"

zero_id_valid : is_valid_contract_id zero_id ≡ true
unfolding is_valid_contract_id is_valid_strkey base32_decode decode_from crc16_xmodem crc_from
zero_id_valid = refl

swapped_id_invalid : is_valid_contract_id swapped_id ≡ false
unfolding is_valid_contract_id is_valid_strkey base32_decode decode_from crc16_xmodem crc_from
swapped_id_invalid = refl

is_valid_contract_id_bytes_example :
    (bytes : List ℕ) × (base32_decode zero_id ≡ some bytes)
    × (length bytes ≡ 35)
    × (checked 16 bytes ≡ true)
is_valid_contract_id_bytes_example = is_valid_contract_id_bytes zero_id zero_id_valid

mfrgg_decoded : base32_decode "MFRGG" ≡ some (97 ∷ 98 ∷ 99 ∷ [])
unfolding base32_decode decode_from
mfrgg_decoded = refl

-- Every URL that begins like one.
abbrev http_url : String → Bool
http_url s = has_prefix "http" s

abbrev input : EnvInput
input = record {
  governance_contract_id = some " CAAAAAAAAAAAAAAAAAAAAAAAAAAAAAAAAAAAAAAAAAAAAAAAAAAAD2KM ";
  token_contract_id = none;
  rpc_url = none;
  network_passphrase = none;
  use_fixture = some "0";
  site_url = none;
}

abbrev accepted : AppEnv
accepted = record {
  use_fixture = false;
  governance_contract_id = some zero_id;
  token_contract_id = none;
  stellar_rpc_url = "https://soroban-testnet.stellar.org";
  network_passphrase = "Test SDF Network ; September 2015";
  site_url = "https://quorum.stellar.org";
}

input_loads : load_env http_url input ≡ ok accepted
unfolding load_env problems clean trim_start trim_end is_valid_contract_id is_valid_strkey
    base32_decode decode_from crc16_xmodem crc_from
input_loads = refl

load_env-source_example :
    (accepted.use_fixture ≡ true)
    ⊎ ((id : String) × (accepted.governance_contract_id ≡ some id)
        × (is_valid_contract_id id ≡ true))
load_env-source_example = load_env-source http_url input accepted input_loads
