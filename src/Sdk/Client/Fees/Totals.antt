-- ===== src/Sdk/Client/Fees/Totals.antt =====
-- What an estimate of `estimateFees` adds up to.
use mathlib.Core.Path.{subst}
use stellar_quorum.Base.{ℕ, String, ◌≡◌, refl, ◌∙◌, ap, ◌+◌}
use stellar_quorum.Base.Integer.{pos, ◌+ℤ◌, minus-cancel, minus-raise}
use stellar_quorum.Base.Result.{Result, ok, >>=-eq-ok}
use stellar_quorum.Sdk.Types.{QuorumClientConfig}
use stellar_quorum.Sdk.Errors.{Thrown}
use stellar_quorum.Sdk.Client.Transport.{Response}
use stellar_quorum.Sdk.Client.Retry.{read}
use stellar_quorum.Sdk.Client.Fees.{
  FeeEstimate, Transaction, Parsed, transaction, fee_bump, FeeSimulation, refused, min_resource_fee,
  declared_resource_fee, as_transaction, resource_fee_of, estimate, estimate_fees,
}

-- The estimate `e` replaces the resource fee that `tx` declares by the one simulated, `k`.
pub record Replaces (tx : Transaction) (k : ℕ) (e : FeeEstimate) : Type 0 where
  resource : e.resource_fee ≡ pos k
  inclusion : e.inclusion_fee +ℤ pos (declared_resource_fee tx) ≡ pos tx.fee
  total : e.total_fee +ℤ pos (declared_resource_fee tx) ≡ pos (tx.fee + k)

estimate-Replaces : (tx : Transaction) (k : ℕ) → Replaces tx k (estimate tx k)
estimate-Replaces tx k = record {
  resource = refl;
  inclusion = minus-cancel tx.fee (declared_resource_fee tx);
  total = minus-raise tx.fee (declared_resource_fee tx) k;
}

as_transaction-ok : (p : Parsed) (tx : Transaction) → as_transaction p ≡ ok tx → p ≡ transaction tx
as_transaction-ok fee_bump tx h = cc
as_transaction-ok (transaction t) tx h = cc

resource_fee_of-ok : (s : FeeSimulation) (k : ℕ) → resource_fee_of s ≡ ok k → s ≡ min_resource_fee k
resource_fee_of-ok (refused e) k h = cc
resource_fee_of-ok (min_resource_fee f) k h = cc

-- If estimateFees gives an estimate, the text parsed as a plain transaction, its simulation succeeded with a
-- resource fee, and the estimate has that resource fee in place of the declared one.
pub estimate_fees-Replaces :
    (c : QuorumClientConfig) (from_xdr : String → String → Result Thrown Parsed)
    (simulate : Transaction → ℕ → Response FeeSimulation) (draw : ℕ → ℕ) (xdr : String)
    (e : FeeEstimate)
    → estimate_fees c from_xdr simulate draw xdr ≡ ok e
    → (tx : Transaction) × (k : ℕ) × (from_xdr xdr c.network_passphrase ≡ ok (transaction tx))
      × ((read c "simulate:estimateFees" (simulate tx) draw).result ≡ ok (min_resource_fee k))
      × Replaces tx k e
unfolding estimate_fees
estimate_fees-Replaces c from_xdr simulate draw xdr e h =
    let (parsed, parses, h₁) = >>=-eq-ok (from_xdr xdr c.network_passphrase) _ h in
    let (tx, plain, h₂) = >>=-eq-ok (as_transaction parsed) _ h₁ in
    let (simulation, runs, h₃) =
      >>=-eq-ok (read c "simulate:estimateFees" (simulate tx) draw).result _ h₂ in
    let (k, fee, given) = >>=-eq-ok (resource_fee_of simulation) _ h₃ in
    (
      tx,
      k,
      (parses ∙ ap ok (as_transaction-ok parsed tx plain)),
      runs ∙ ap ok (resource_fee_of-ok simulation k fee),
      subst (Replaces tx k) (cc) (estimate-Replaces tx k),
    )
