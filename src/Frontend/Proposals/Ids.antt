-- ===== src/Frontend/Proposals/Ids.antt =====
-- The id that the user interface gives a proposal, and the proposal that it asks the contract for.
use Prim.Native.String.{[]}
use text.Mathlib.TextLemmas.{append-nil}
use stellar_quorum.Base.{ℕ, zero, suc, String, ◌≡◌, sym, ap, ◌∙◌, false, some, arith}
use stellar_quorum.Base.Result.{ok}
use stellar_quorum.Base.Text.{◌<>◌, decimal, read_number, digits_from, strip_prefix, strip_by}
use stellar_quorum.Base.Text.Decimal.{read_number-decimal, digits_from-decimal_onto}
use stellar_quorum.Base.Text.Replace.{append-onto}
use stellar_quorum.Sdk.Types as Chain
use stellar_quorum.Frontend.Proposals.{
  Reads, Clock, zeros, padded, proposal_id, chain_id, whole, behind, to_ui_proposal,
  get_proposal_by_id, read_proposal,
}

digits_from-zeros : (k n : ℕ) → digits_from 0 (zeros k (decimal n)) ≡ (n, [])
unfolding decimal digits_from
digits_from-zeros zero n = digits_from-decimal_onto n n [] (omega arith)
digits_from-zeros (suc k) n =
    ap (digits_from 0) (append-onto "0" (zeros k (decimal n))) ∙ digits_from-zeros k n

read_number-zeros : (k n : ℕ) → read_number (zeros k (decimal n)) ≡ some (n, [])
unfolding read_number digits_from
read_number-zeros zero n = ap read_number (sym (append-nil (decimal n))) ∙ read_number-decimal n []
read_number-zeros (suc k) n =
    ap read_number (append-onto "0" (zeros k (decimal n))) ∙ ap some (digits_from-zeros k n)

strip_prefix-onto : (s : String) → strip_prefix "QIP-" ("QIP-" <> s) ≡ some s
unfolding strip_prefix strip_by
strip_prefix-onto s = ap (strip_prefix "QIP-") (append-onto "QIP-" s)

chain_id-proposal_id : (n : ℕ) → chain_id (proposal_id n) ≡ some n
unfolding chain_id proposal_id padded
chain_id-proposal_id n = ap behind (strip_prefix-onto _) ∙ ap whole (read_number-zeros _ n)

-- The id under which a proposal was shown leads back to it: outside the fixture, the contract's proposal
-- is read by its own number, and shown as of the ledger that is the latest now.
pub get_proposal_by_id-shown :
    (reads : Reads) (clock : Clock) (p : Chain.Proposal) (latest : ℕ)
    → reads.proposal p.id ≡ ok (some p)
    → reads.latest_ledger ≡ ok latest
    → (before : ℕ)
    → get_proposal_by_id false (ok reads) clock (to_ui_proposal clock before p).id
      ≡ ok (some (to_ui_proposal clock latest p))
unfolding get_proposal_by_id to_ui_proposal
get_proposal_by_id-shown reads clock p latest h k before =
    ap (read_proposal (ok reads) clock) (chain_id-proposal_id p.id) ∙ rw (h, k)
