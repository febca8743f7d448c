-- ===== src/Sdk/Freighter/Tests.antt =====
-- Runs of the wallet helper, and its properties at inputs that meet their premises.
use stellar_quorum.Base.{String, ◌≡◌, ◌≢◌, refl, true, none, some, get_or}
use stellar_quorum.Base.Result.{ok, err}
use stellar_quorum.Base.Text.{includes_any, includes_ci, includes_by, strip_by}
use stellar_quorum.Sdk.Freighter.{
  locked, with_message, FreighterApi, Signed, Wallet, SignWithFreighterOptions, SignedTransaction,
  failure, connect, load_freighter, get_freighter_address, sign_with_freighter, to_freighter_error,
  code_for,
}
use stellar_quorum.Sdk.Freighter.Codes.{sign_with_freighter-eq-ok}

abbrev signed_by_wallet : Signed
signed_by_wallet = record { error = none; signed_tx_xdr = some "SIGNED"; signer_address = none }

abbrev friendly : FreighterApi
friendly = record {
  is_connected = none;
  request_access = ok (record { error = none; address = some "GA" });
  sign_transaction = λ xdr passphrase signer. ok signed_by_wallet;
}

abbrev friendly_wallet : Wallet
friendly_wallet = record { in_browser = true; api_module = ok (some friendly) }

abbrev options : SignWithFreighterOptions
options = record { network_passphrase = "net"; address = none }

abbrev outcome : SignedTransaction
outcome = record { signed_xdr = "SIGNED"; signer_address = "GA" }

signs : sign_with_freighter friendly_wallet "AAAA" options ≡ ok outcome
unfolding sign_with_freighter connect load_freighter
signs = refl

abbrev shy_wallet : Wallet
shy_wallet = record {
  in_browser = true;
  api_module = ok (
      some (record friendly {
        request_access =
            ok (record { error = some (with_message "Wallet is locked"); address = none });
      }));
}

shy_fails : get_freighter_address shy_wallet ≡ err (failure locked "Wallet is locked")
unfolding get_freighter_address connect load_freighter to_freighter_error code_for includes_any
    includes_ci includes_by strip_by
shy_fails = refl

sign_with_freighter-eq-ok_example :
    (api : FreighterApi) × (address : String) × (signed : Signed) × (connect friendly_wallet
      ≡ ok (api, address))
    × (api.sign_transaction "AAAA" "net" (get_or none address) ≡ ok signed)
    × (signed.error ≡ none)
    × (signed.signed_tx_xdr ≡ some outcome.signed_xdr)
    × (outcome.signed_xdr ≢ "")
sign_with_freighter-eq-ok_example =
    sign_with_freighter-eq-ok friendly_wallet "AAAA" options outcome signs
