-- ===== src/Frontend/Wallet.antt =====
-- frontend/components/WalletProvider.tsx with lib/wallets: the wallet that is connected. `connect` is two
-- steps, up to the wallet's answer and after it, so that other operations come between them. A handler
-- is the one of the latest render, whose closure has the current state.
pub mod Accounts
mod Tests
use text.Mathlib.Text.{◌==◌ as same_text}
use stellar_quorum.Base.{
  ℕ, String, Bool, true, false, not, Option, none, some, List, [], ◌∷◌, keep, take, get_or,
  if◌then◌else◌,
}
use stellar_quorum.Base.Result.{Result, ok, err}
use stellar_quorum.Sdk.Errors.{Thrown, plain}

pub record WalletState : Type 0 where
  pub address : Option String
  pub connected_addresses : List String
  pub pending : Bool
  pub error : Option String
  pub active_wallet_id : Option String

abbrev pub initial : WalletState
initial = record {
  address = none;
  connected_addresses = [];
  pending = false;
  error = none;
  active_wallet_id = none;
}

-- `[address, ...prev.filter((a) => a !== address)].slice(0, 10)`
unfoldable pub remembered : String → List String → List String
remembered address previous = take 10 (address ∷ keep (λ a. not (same_text a address)) previous)

-- `getAvailableWallets`: there is one adapter, named "freighter"; `installed` is its `isAvailable`.
abbrev pub available_wallets : Bool → List String
available_wallets true = "freighter" ∷ []
available_wallets false = []

-- `getWalletAdapter`
abbrev pub wallet_adapter : Bool → String → Option String
wallet_adapter installed id =
    if installed then if same_text id "freighter" then some "freighter" else none else none

abbrev target : Bool → Option String → String → String
target installed none first = first
target installed (some id) first = elim (wallet_adapter installed id) [ none ↦ first | some w ↦ w ]

-- What `connect` asks, if anything: the wallet that it waits for.
unfoldable pub start_connect : Bool → Option String → WalletState → WalletState × Option String
start_connect installed wallet_id s = elim (available_wallets installed) [
  | [] ↦ (
    record s {
      pending = false;
      error = some "No Stellar wallet extension found. Install Freighter to connect.";
    },
    none,
  )
  | first ∷ others ↦
      (record s { pending = true; error = none }, some (target installed wallet_id first))
]

-- `cause instanceof Error ? cause.message : t("nav.refused")`
abbrev pub refusal : Thrown → String
refusal cause = elim cause.class [
  | plain s ↦ "Wallet connection was refused."
  | _ ↦ get_or cause.message ""
]

unfoldable pub finish_connect : String → Result Thrown String → WalletState → WalletState
finish_connect wallet (err cause) s = record s { error = some (refusal cause); pending = false }
finish_connect wallet (ok public_key) s = record s {
  address = some public_key;
  active_wallet_id = some wallet;
  connected_addresses = remembered public_key s.connected_addresses;
  pending = false;
}

-- Also the adapter that is told to disconnect, if any.
unfoldable pub disconnect : Bool → WalletState → WalletState × Option String
disconnect installed s = (
  record s { address = none; active_wallet_id = none; error = none },
  elim s.active_wallet_id [ none ↦ none | some id ↦ wallet_adapter installed id ],
)

-- The wallet itself is not asked.
unfoldable pub switch_account : Bool → String → WalletState → WalletState
switch_account installed new_address s = elim s.active_wallet_id [
  | none ↦ record s { error = some "No wallet connected" }
  | some id ↦ elim (wallet_adapter installed id) [
    | none ↦ record s { error = some "Wallet not found" }
    | some w ↦ record s {
      error = none;
      address = some new_address;
      connected_addresses = remembered new_address s.connected_addresses;
      pending = false;
    }
  ]
]
