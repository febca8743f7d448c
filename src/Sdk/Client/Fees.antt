-- ===== src/Sdk/Client/Fees.antt =====
-- `estimateFees` and `declaredResourceFee` of sdk/src/client.ts. `from_xdr` is
-- `TransactionBuilder.fromXDR`, `simulate` what the network does with attempt `n` of the simulation.
pub mod Totals
mod Tests
use stellar_quorum.Base.{ℕ, String}
use stellar_quorum.Base.Integer.{ℤ, pos, minus, ◌+ℤ◌}
use stellar_quorum.Base.Result.{Result, ok, err, ◌>>=◌}
use stellar_quorum.Base.Text.{◌<>◌}
use stellar_quorum.Sdk.Types.{QuorumClientConfig}
use stellar_quorum.Sdk.Errors.{Thrown, instance_of, error}
use stellar_quorum.Sdk.Client.Transport.{Response}
use stellar_quorum.Sdk.Client.Retry.{read}

pub record FeeEstimate : Type 0 where
  pub inclusion_fee : ℤ
  pub resource_fee : ℤ
  pub total_fee : ℤ

-- An envelope of version 1 with Soroban data and its resource fee, or without; or an older one.
pub data Envelope : Type 0 where
  soroban_data : ℕ → Envelope
  no_data : Envelope
  version_0 : Envelope

pub record Transaction : Type 0 where
  pub fee : ℕ
  pub envelope : Envelope

pub data Parsed : Type 0 where
  transaction : Transaction → Parsed
  fee_bump : Parsed

pub data FeeSimulation : Type 0 where
  refused : String → FeeSimulation
  min_resource_fee : ℕ → FeeSimulation

abbrev pub declared_in : Envelope → ℕ
declared_in version_0 = 0
declared_in no_data = 0
declared_in (soroban_data f) = f

abbrev pub declared_resource_fee : Transaction → ℕ
declared_resource_fee tx = declared_in tx.envelope

abbrev pub as_transaction : Parsed → Result Thrown Transaction
as_transaction fee_bump =
    err (instance_of error "estimateFees does not accept fee-bump transactions")
as_transaction (transaction tx) = ok tx

abbrev pub resource_fee_of : FeeSimulation → Result Thrown ℕ
resource_fee_of (refused e) = err (instance_of error ("Fee estimate failed: " <> e))
resource_fee_of (min_resource_fee f) = ok f

abbrev pub estimate : Transaction → ℕ → FeeEstimate
estimate tx resource =
    let inclusion = minus tx.fee (declared_resource_fee tx) in
    record {
      inclusion_fee = inclusion;
      resource_fee = pos resource;
      total_fee = inclusion +ℤ pos resource;
    }

unfoldable pub estimate_fees :
    QuorumClientConfig
    → (String → String → Result Thrown Parsed)
    → (Transaction → ℕ → Response FeeSimulation)
    → (ℕ → ℕ)
    → String
    → Result Thrown FeeEstimate
estimate_fees c from_xdr simulate draw xdr = do
  parsed ← from_xdr xdr c.network_passphrase
  tx ← as_transaction parsed
  simulation ← (read c "simulate:estimateFees" (simulate tx) draw).result
  resource ← resource_fee_of simulation
  ok (estimate tx resource)
