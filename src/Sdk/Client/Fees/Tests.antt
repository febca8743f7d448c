-- ===== src/Sdk/Client/Fees/Tests.antt =====
-- Fee estimates of sample transactions.
use stellar_quorum.Base.{ℕ, String, ◌≡◌, refl, some}
use stellar_quorum.Base.Integer.{negsuc, pos, ◌+ℤ◌}
use stellar_quorum.Base.Result.{Result, ok, err}
use stellar_quorum.Sdk.Errors.{Thrown, instance_of, error}
use stellar_quorum.Sdk.Client.Samples.{plain_config}
use stellar_quorum.Sdk.Client.Transport.{Response, with_timeout}
use stellar_quorum.Sdk.Client.Retry.{read, read_loop}
use stellar_quorum.Sdk.Client.Fees.{
  FeeEstimate, Transaction, Parsed, transaction, fee_bump, soroban_data, FeeSimulation,
  min_resource_fee, estimate_fees,
}
use stellar_quorum.Sdk.Client.Fees.Totals.{Replaces, estimate_fees-Replaces}

abbrev prepared : Transaction
prepared = record { fee = 5100; envelope = soroban_data 5000 }

abbrev reads_prepared : String → String → Result Thrown Parsed
reads_prepared xdr passphrase = ok (transaction prepared)

abbrev needs_7000 : Transaction → ℕ → Response FeeSimulation
needs_7000 tx attempt = record { after = some 20; result = ok (min_resource_fee 7000) }

abbrev no_draw : ℕ → ℕ
no_draw n = 0

abbrev expected : FeeEstimate
expected = record { inclusion_fee = pos 100; resource_fee = pos 7000; total_fee = pos 7100 }

estimated : estimate_fees plain_config reads_prepared needs_7000 no_draw "AAAA" ≡ ok expected
unfolding estimate_fees read read_loop with_timeout ◌+ℤ◌
estimated = refl

underpaid :
    estimate_fees plain_config
      (λ xdr passphrase. ok (transaction (record { fee = 100; envelope = soroban_data 150 })))
      needs_7000
      no_draw
      "AAAA"
    ≡ ok (record { inclusion_fee = negsuc 49; resource_fee = pos 7000; total_fee = pos 6950 })
unfolding estimate_fees read read_loop with_timeout ◌+ℤ◌
underpaid = refl

bumped :
    estimate_fees plain_config (λ xdr passphrase. ok fee_bump) needs_7000 no_draw "AAAA"
    ≡ err (instance_of error "estimateFees does not accept fee-bump transactions")
unfolding estimate_fees
bumped = refl

estimate_fees-Replaces_example :
    (tx : Transaction) × (k : ℕ) × (reads_prepared "AAAA" "net" ≡ ok (transaction tx))
    × ((read plain_config "simulate:estimateFees" (needs_7000 tx) no_draw).result
        ≡ ok (min_resource_fee k))
    × Replaces tx k expected
estimate_fees-Replaces_example =
    estimate_fees-Replaces plain_config reads_prepared needs_7000 no_draw "AAAA" expected estimated
