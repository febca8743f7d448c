-- ===== src/Frontend/Wallet/Tests.antt =====
-- A session with one wallet.
use stellar_quorum.Base.{◌≡◌, refl, true, none, some, [], ◌∷◌}
use stellar_quorum.Base.Result.{ok, err}
use stellar_quorum.Sdk.Errors.{instance_of, error}
use stellar_quorum.Frontend.Wallet.{
  WalletState, initial, remembered, start_connect, finish_connect, switch_account,
}
use stellar_quorum.Frontend.Wallet.Accounts.{
  begins, goes_on, starts, answers, switches, IsValid, Reaches-IsValid,
}

abbrev asked : WalletState
asked = (start_connect true none initial).0

abbrev connected : WalletState
connected = finish_connect "freighter" (ok "GA") asked

abbrev switched : WalletState
switched = switch_account true "GB" connected

remembers_both : switched.connected_addresses ≡ "GB" ∷ "GA" ∷ []
unfolding start_connect finish_connect switch_account remembered
remembers_both = refl

not_connected : (switch_account true "GB" initial).error ≡ some "No wallet connected"
unfolding switch_account
not_connected = refl

refused :
    (finish_connect "freighter" (err (instance_of error "User declined")) asked).error
    ≡ some "User declined"
unfolding finish_connect
refused = refl

Reaches-IsValid_example : IsValid switched
Reaches-IsValid_example = Reaches-IsValid switched (
    goes_on
      (goes_on (goes_on begins (starts initial true none)) (answers asked "freighter" (ok "GA")))
      (switches connected true "GB"))
