-- ===== src/Scripts/Seed.antt =====
-- scripts/seed-demo-proposals.mjs: the calls that the script makes, over a network. What is written to
-- the console is left out. `Native` is what `scValToNative` makes of a contract's answer.
pub mod Deploying
pub mod Main
pub mod Keeping
pub mod Ordering
pub mod Watching
pub mod Timeliness
pub mod Steps
pub mod Order
pub mod Waiting
pub mod Signing
mod Tests
use text.Mathlib.Text.{◌==◌ as same_text}
use stellar_quorum.Base.{
  ℕ, zero, suc, ◌+◌, ◌*◌, String, Bool, true, false, ◌||◌, not, ltb, leb, Option, none, some, List,
  [], ◌∷◌, get_or, if◌then◌else◌,
}
use stellar_quorum.Base.Result.{Result, ok, err}
use stellar_quorum.Base.Text.{◌<>◌, decimal}
use stellar_quorum.Frontend.Env.{trim_start, trim_end, is_space}
use stellar_quorum.Sdk.Errors.{Thrown, text_of}
use stellar_quorum.Scripts.Script.{
  Script, pure, throws, throw_error, give_up, ◌>>=◌, ◌>>◌, awaited, attempt, throw_when,
}

-- The contract values that the script passes.
pub data Value : Type 0 where
  address string : String → Value
  u32 u64 i128 : ℕ → Value

pub record Call : Type 0 where
  pub contract : String
  pub method : String
  pub arguments : List Value
  pub source : String

-- `credentials.type` with the address that it has, if any.
pub data Credentials : Type 0 where
  source_account : Credentials
  address_v1 address_v2 : String → Credentials

pub record AuthEntry : Type 0 where
  pub credentials : Credentials
  pub invocation : String

pub data Simulation (Native : Type 0) : Type 0 where
  simulation_error : String → Simulation Native
  simulated : List AuthEntry → Native → Simulation Native

-- `error_result` is the JSON text of the result that came with it.
pub record Sent : Type 0 where
  pub status : String
  pub hash : String
  pub error_result : Option String

pub data TransactionStatus : Type 0 where
  success failed not_found : TransactionStatus

pub record FriendbotAnswer : Type 0 where
  pub is_ok : Bool
  pub status : ℕ
  pub text : String

-- The RPC server, the friendbot at its URL, and the clock. `authorize entry signer ledger` is `authorizeEntry`.
pub record Network (W Native : Type 0) : Type 0 where
  pub friendbot_url : String
  pub now : W → ℕ
  pub sleep : ℕ → W → W
  pub latest_ledger : W → W × Result Thrown ℕ
  pub friendbot : String → W → W × Result Thrown FriendbotAnswer
  pub get_account : String → W → W × Result Thrown (Unit {0})
  pub simulate : Call → W → W × Result Thrown (Simulation Native)
  pub authorize : AuthEntry → String → ℕ → W → W × Result Thrown AuthEntry
  pub send : Call → List AuthEntry → W → W × Result Thrown Sent
  pub get_transaction : String → W → W × Result Thrown TransactionStatus

abbrev pub tx_timeout_ms : ℕ
tx_timeout_ms = 120000

abbrev pub ledger_timeout_ms : ℕ
ledger_timeout_ms = 30 * 60000

abbrev pub read_only_source : String
read_only_source = "GAAAAAAAAAAAAAAAAAAAAAAAAAAAAAAAAAAAAAAAAAAAAAAAAAAAAWHF"

-- `keypairs.has(address)`: a key pair is named by its address.
abbrev pub has_key : String → List String → Bool
has_key a [] = false
has_key a (k ∷ ks) = same_text k a || has_key a ks

abbrev trim : String → String
trim s = trim_end is_space (trim_start is_space s)

-- The address that has to sign for the entry, if the transaction's own signature is not enough.
abbrev pub signer_of : String → AuthEntry → Option String
signer_of source entry = elim entry.credentials [
  | source_account ↦ none
  | address_v1 a ↦ if same_text a source then none else some a
  | address_v2 a ↦ if same_text a source then none else some a
]

abbrev pub is_accepted : String → Bool
is_accepted status = same_text status "PENDING" || same_text status "SUCCESS"

abbrev pub rejection : String → Sent → String
rejection method sent =
    trim (
      "the network rejected "
      <> method
      <> ": "
      <> sent.status
      <> " "
      <> get_or sent.error_result "")

abbrev pub not_included : String → String
not_included method =
    method <> " was not included in a ledger within " <> decimal tx_timeout_ms <> "ms"

abbrev pub not_reached : ℕ → String
not_reached target =
    "the network did not reach ledger "
    <> decimal target
    <> " within "
    <> decimal ledger_timeout_ms
    <> "ms"

module _ {W Native : Type 0} (net : Network W Native) where
  abbrev clock : Script W ℕ
  clock w = pure (net.now w) w

  abbrev pub wait_ms : ℕ → Script W (Unit {0})
  wait_ms ms w = pure tt (net.sleep ms w)

  abbrev pub or_refuse : String → FriendbotAnswer → Result Thrown (Unit {0}) → Script W (Unit {0})
  or_refuse account answer (ok _) = pure tt
  or_refuse account answer (err _) = throw_error (
      "friendbot funding failed for "
      <> account
      <> ": "
      <> decimal answer.status
      <> " "
      <> trim answer.text)

  abbrev pub funded : String → Result Thrown FriendbotAnswer → Script W (Unit {0})
  funded account (err e) =
      throw_error ("cannot reach the friendbot at " <> net.friendbot_url <> ": " <> text_of e)
  funded account (ok answer) =
      if answer.is_ok
      then pure tt
      else (attempt (net.get_account account) >>= or_refuse account answer)

  unfoldable pub fund_account : String → Script W (Unit {0})
  fund_account account = attempt (net.friendbot account) >>= funded account

  abbrev pub authorized : AuthEntry → String → Script W AuthEntry
  authorized entry signer = do
    ledger ← awaited net.latest_ledger
    awaited (net.authorize entry signer (ledger + 100))

  abbrev pub signed_by : List String → AuthEntry → Option String → Script W AuthEntry
  signed_by keys entry none = pure entry
  signed_by keys entry (some signer) =
      if has_key signer keys
      then authorized entry signer
      else throw_error (
          "the contract requires an authorization from " <> signer
          <> ", which this script does not control")

  abbrev pub signed_entry : List String → String → AuthEntry → Script W AuthEntry
  signed_entry keys source entry = signed_by keys entry (signer_of source entry)

  unfoldable pub sign_auth_entries :
      List String → String → List AuthEntry → Script W (List AuthEntry)
  sign_auth_entries keys source [] = pure []
  sign_auth_entries keys source (entry ∷ more) = do
    first ← signed_entry keys source entry
    rest ← sign_auth_entries keys source more
    pure (first ∷ rest)

  abbrev entries_of : String → Simulation Native → Script W (List AuthEntry)
  entries_of method (simulation_error e) =
      throw_error ("simulation of " <> method <> " failed: " <> e)
  entries_of method (simulated entries retval) = pure entries

  abbrev value_of : String → Simulation Native → Script W Native
  value_of method (simulation_error e) = throw_error ("read of " <> method <> " failed: " <> e)
  value_of method (simulated entries retval) = pure retval

  abbrev judged : String → String → TransactionStatus → Script W (Unit {0}) → Script W (Unit {0})
  judged method hash success again = pure tt
  judged method hash failed again =
      throw_error (method <> " failed on chain (transaction " <> hash <> ")")
  judged method hash not_found again = wait_ms 1000 >> again

  -- The loop that waits for the transaction.
  unfoldable pub confirm : ℕ → String → String → ℕ → Script W (Unit {0})
  confirm zero method hash deadline = give_up
  confirm (suc rounds) method hash deadline = do
    now ← clock
    if ltb now deadline
        then (do
          status ← awaited (net.get_transaction hash)
          judged method hash status (confirm rounds method hash deadline))
        else throw_error (not_included method)

  unfoldable pub invoke :
      ℕ → List String → String → String → List Value → String → Script W (Unit {0})
  invoke rounds keys contract method arguments source =
      let call : Call = record {
        contract = contract;
        method = method;
        arguments = arguments;
        source = source;
      } in
      do
        throw_when (not (has_key source keys)) ("no key for " <> source)
        awaited (net.get_account source)
        simulation ← awaited (net.simulate call)
        entries ← entries_of method simulation
        auth ← sign_auth_entries keys source entries
        sent ← awaited (net.send call auth)
        throw_when (not (is_accepted sent.status)) (rejection method sent)
        start ← clock
        confirm rounds method sent.hash (start + tx_timeout_ms)

  unfoldable pub read : String → String → List Value → Script W Native
  read contract method arguments = do
    simulation ← awaited (
        net.simulate (record {
          contract = contract;
          method = method;
          arguments = arguments;
          source = read_only_source;
        }))
    value_of method simulation

  -- The loop that waits for the ledger.
  unfoldable pub await_ledger : ℕ → ℕ → ℕ → Script W ℕ
  await_ledger zero target deadline = give_up
  await_ledger (suc rounds) target deadline = do
    now ← clock
    if ltb now deadline
        then (do
          sequence ← awaited net.latest_ledger
          if leb target sequence
              then pure sequence
              else (wait_ms 1000 >> await_ledger rounds target deadline))
        else throw_error (not_reached target)

  unfoldable pub wait_for_ledger : ℕ → ℕ → Script W ℕ
  wait_for_ledger rounds target = do
    start ← clock
    await_ledger rounds target (start + ledger_timeout_ms)
