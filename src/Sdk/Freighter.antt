-- ===== src/Sdk/Freighter.antt =====
-- sdk/src/freighter.ts: signing with the Freighter wallet.
-- The browser and the wallet's API are a `Wallet`, a parameter: what it answers, or what it throws.
pub mod Codes
mod Tests
use text.Mathlib.Text.{◌==◌ as same_text}
use stellar_quorum.Base.{
  String, Bool, true, false, not, Option, none, some, List, [], ◌∷◌, if◌then◌else◌, get_or, or_else,
}
use stellar_quorum.Base.Result.{Result, ok, err, ◌>>=◌, ◌>>◌, throw_if, map_err}
use stellar_quorum.Base.Text.{◌<>◌, includes_any}

pub data FreighterErrorCode : Type 0 where
  not_installed locked access_denied signing_rejected wallet_error : FreighterErrorCode

-- What the functions throw: a `TypeError`, or a `FreighterError` with its code.
pub data Failure : Type 0 where
  type_error : String → Failure
  freighter_error : FreighterErrorCode → String → Failure

-- A thrown value or an error payload: an `Error`, an object with a `message`, or anything else in
-- print.
pub data Payload : Type 0 where
  an_error : String → Payload
  with_message : String → Payload
  printed : String → Payload

pub data Phase : Type 0 where
  access sign : Phase

pub record Access : Type 0 where
  pub error : Option Payload
  pub address : Option String

pub record Signed : Type 0 where
  pub error : Option Payload
  pub signed_tx_xdr : Option String
  pub signer_address : Option String

-- `isConnected` may be missing; then what it answers: an error, or the flag.
pub record FreighterApi : Type 0 where
  pub is_connected : Option (Result Payload (Option Payload × Option Bool))
  pub request_access : Result Payload Access
  pub sign_transaction : String → String → String → Result Payload Signed

-- `api_module` is the import, with the API that `apiFrom` finds in it.
pub record Wallet : Type 0 where
  pub in_browser : Bool
  pub api_module : Result Payload (Option FreighterApi)

pub record SignWithFreighterOptions : Type 0 where
  pub network_passphrase : String
  pub address : Option String

pub record SignedTransaction : Type 0 where
  pub signed_xdr : String
  pub signer_address : String

abbrev pub text_of : Payload → String
text_of (an_error message) = message
text_of (with_message message) = message
text_of (printed s) = s

abbrev pub declined_words : List String
declined_words = "declin" ∷ "reject" ∷ "denied" ∷ "refus" ∷ "cancel" ∷ "not allowed" ∷ []

abbrev pub locked_words : List String
locked_words = "lock" ∷ []

abbrev pub missing_words : List String
missing_words = "install" ∷ "not found" ∷ "not available" ∷ "unsupported" ∷ "no freighter" ∷ []

-- The code of a phase, whether the text says that the user declined or says nothing known.
abbrev pub phase_code : Phase → FreighterErrorCode
phase_code sign = signing_rejected
phase_code access = access_denied

-- The text is compared in lower case.
unfoldable pub code_for : String → Phase → FreighterErrorCode
code_for message phase =
    if includes_any locked_words message
    then locked
    else if includes_any missing_words message
    then not_installed
    else if includes_any declined_words message
    then phase_code phase
    else phase_code phase

unfoldable pub describe : FreighterErrorCode → String → String
describe not_installed detail =
    "Freighter is not available (" <> detail
    <> "). Install the extension from https://freighter.app and `npm install @stellar/freighter-api`, then reload."
describe locked detail =
    "The Freighter wallet is locked (" <> detail <> "). Unlock the extension and try again."
describe access_denied detail =
    "The Freighter connection request was not granted (" <> detail <> ")."
describe signing_rejected detail = "The transaction was not signed (" <> detail <> ")."
describe wallet_error detail = "Freighter request failed (" <> detail <> ")."

-- `new FreighterError(code, describe(code, detail))`
abbrev pub failure : FreighterErrorCode → String → Failure
failure code detail = freighter_error code (describe code detail)

unfoldable pub to_freighter_error : Phase → Payload → Failure
to_freighter_error phase e = failure (code_for (text_of e) phase) (text_of e)

abbrev pub found_api : Option FreighterApi → Result Failure FreighterApi
found_api none = err (failure not_installed "@stellar/freighter-api exposed no signing API")
found_api (some api) = ok api

abbrev pub absent : Payload → Failure
absent e = failure not_installed (text_of e)

unfoldable pub load_freighter : Wallet → Result Failure FreighterApi
load_freighter w = do
  throw_if (not w.in_browser) (
      failure not_installed
        "no browser environment — Freighter only exists as an extension page API")
  api ← map_err absent w.api_module
  found_api api

-- `state?.isConnected !== false`
abbrev connected_unless_false : Option Bool → Bool
connected_unless_false none = true
connected_unless_false (some b) = b

abbrev reachable : Option (Result Payload (Option Payload × Option Bool)) → Bool
reachable none = true
reachable (some (err e)) = false
reachable (some (ok (some e, b))) = false
reachable (some (ok (none, b))) = connected_unless_false b

abbrev available : Result Failure FreighterApi → Bool
available (err e) = false
available (ok api) = reachable api.is_connected

unfoldable pub is_freighter_available : Wallet → Bool
is_freighter_available w = available (load_freighter w)

-- `if (!value) throw e`: a missing or empty string.
abbrev pub present_or : Failure → Option String → Result Failure String
present_or e none = err e
present_or e (some s) = if same_text s "" then err e else ok s

-- `if (error) throw toFreighterError(error, phase)`
abbrev pub no_payload : Phase → Option Payload → Result Failure (Unit {0})
no_payload phase none = ok tt
no_payload phase (some e) = err (to_freighter_error phase e)

unfoldable pub connect : Wallet → Result Failure (FreighterApi × String)
connect w = do
  api ← load_freighter w
  granted ← map_err (to_freighter_error access) api.request_access
  no_payload access granted.error
  address ← present_or (failure access_denied "no address returned") granted.address
  ok (api, address)

unfoldable pub get_freighter_address : Wallet → Result Failure String
get_freighter_address w = do (api, address) ← connect w; ok address

unfoldable pub sign_with_freighter :
    Wallet → String → SignWithFreighterOptions → Result Failure SignedTransaction
sign_with_freighter w xdr options = do
  throw_if (same_text xdr "") (type_error "signWithFreighter: xdr must be a non-empty string")
  throw_if (same_text options.network_passphrase "")
      (type_error "signWithFreighter: options.networkPassphrase is required")
  (api, address) ← connect w
  let signer = get_or options.address address
  signed ←
      map_err (to_freighter_error sign) (api.sign_transaction xdr options.network_passphrase signer)
  no_payload sign signed.error
  signed_xdr ←
      present_or (failure wallet_error "no signed transaction returned") signed.signed_tx_xdr
  ok (record { signed_xdr = signed_xdr; signer_address = get_or signed.signer_address signer })
