-- ===== src/Sdk/Client/Polling.antt =====
-- `submitAndWait` of sdk/src/client.ts. `Date.now()` is a count of milliseconds that the loop passes
-- on: poll `n` takes `took n` of them, and its delay fires `late n` after it is due.
pub mod Waiting
mod Tests
use stellar_quorum.Base.{
  ℕ, zero, suc, ◌+◌, ◌-◌, min, String, ◌≡◌, Bool, true, false, Option, none, some, if◌then◌else◌,
  ltb, get_or, or_else,
}
use text.Mathlib.Text.{◌==◌ as same_text}
use stellar_quorum.Base.Result.{Result, ok, err, ◌>>=◌}
use stellar_quorum.Base.Text.{◌<>◌}
use stellar_quorum.Sdk.Types.{QuorumClientConfig, TransactionConfirmationOptions}
use stellar_quorum.Sdk.Errors.{
  Thrown, rpc_timeout_error, transaction_failed_error, contract_error_code_in,
}
use stellar_quorum.Sdk.Client.Transport.{
  Response, with_timeout, default_poll_interval_ms, default_confirmation_timeout_ms,
}

-- What of a response `formatTransactionFailure` reads, the details in print.
pub record FailedResponse : Type 0 where
  pub hash : Option String
  pub tx_hash : Option String
  pub error_result : Option String
  pub result_xdr : Option String

abbrev described : String → Option String → String
described hash none = "Transaction " <> hash <> " failed"
described hash (some detail) =
    if same_text detail ""
    then "Transaction " <> hash <> " failed"
    else "Transaction " <> hash <> " failed: " <> detail

unfoldable pub format_transaction_failure : FailedResponse → String
format_transaction_failure r =
    described (get_or (or_else r.hash r.tx_hash) "") (or_else r.error_result r.result_xdr)

-- `new TransactionFailedError(hash, message, contractErrorCode(message))`
unfoldable pub failure_of : String → FailedResponse → Thrown
failure_of hash r =
    let message = format_transaction_failure r in
    transaction_failed_error hash message (contract_error_code_in message)

-- What `sendTransaction` answers: `failed` when the status is ERROR.
pub record Submitted : Type 0 where
  pub hash : String
  pub failed : Option FailedResponse

-- What `getTransaction` answers.
pub data TransactionStatus (R : Type 0) : Type 0 where
  success : R → TransactionStatus R
  failed : String → FailedResponse → TransactionStatus R
  not_found : TransactionStatus R

-- What is awaited, once the code stops; and how often it asked.
pub record Waited (A : Type 0) : Type 0 where
  pub answer : Option (Result Thrown A)
  pub polls : ℕ

abbrev pub wait_interval : QuorumClientConfig → TransactionConfirmationOptions → ℕ
wait_interval c o = get_or (or_else o.poll_interval_ms c.poll_interval_ms) default_poll_interval_ms

abbrev pub wait_timeout : QuorumClientConfig → TransactionConfirmationOptions → ℕ
wait_timeout c o =
    get_or (or_else o.timeout_ms c.confirmation_timeout_ms) default_confirmation_timeout_ms

-- What ends the loop: a failed read, or a status that is final.
abbrev pub conclusion :
    {R : Type 0} → Result Thrown (TransactionStatus R) → Option (Result Thrown R)
conclusion (err e) = some (err e)
conclusion (ok (success r)) = some (ok r)
conclusion (ok (failed hash r)) = some (err (failure_of hash r))
conclusion (ok not_found) = none

abbrev pub no_confirmation : {R : Type 0} → ℕ → Result Thrown R
no_confirmation timeout = err (rpc_timeout_error "transaction confirmation" timeout)

module _ {R : Type 0} (poll : ℕ → Result Thrown (TransactionStatus R)) (took late : ℕ → ℕ)
    (interval timeout deadline : ℕ) where
  -- When the loop tests the clock again: `delay(Math.min(pollIntervalMs, Math.max(0, deadline - now)))`.
  abbrev pub next_test : ℕ → ℕ → ℕ
  next_test n now = now + took n + min interval (deadline - (now + took n)) + late n

  abbrev polled : Option (Result Thrown R) → Waited R → Waited R
  polled none rest = record { answer = rest.answer; polls = suc rest.polls }
  polled (some r) rest = record { answer = some r; polls = 1 }

  -- The `while` loop from poll `n` at the time `now`, in at most `rounds` rounds.
  unfoldable pub wait_loop : ℕ → ℕ → ℕ → Waited R
  wait_loop zero n now = record { answer = none; polls = 0 }
  wait_loop (suc rounds) n now =
      let rest = wait_loop rounds (suc n) (next_test n now) in
      if ltb now deadline
      then polled (conclusion (poll n)) rest
      else record { answer = some (no_confirmation timeout); polls = 0 }

-- `parsed` is `TransactionBuilder.fromXDR(…)`, `send` what the network does with the transaction, and
-- `now` the time when it has been submitted.
module _ {R T : Type 0} (c : QuorumClientConfig) (o : TransactionConfirmationOptions)
    (parsed : Result Thrown T) (send : T → Response Submitted)
    (poll : String → ℕ → Result Thrown (TransactionStatus R)) (took late : ℕ → ℕ) (now : ℕ) where
  abbrev stopped : Thrown → Waited R
  stopped e = record { answer = some (err e); polls = 0 }

  abbrev wait_for : Submitted → Waited R
  wait_for s = elim s.failed [
    | some r ↦ stopped (failure_of s.hash r)
    | none ↦
        wait_loop (poll s.hash) took late (wait_interval c o) (wait_timeout c o)
          (now + wait_timeout c o) (suc (wait_timeout c o)) 0 now
  ]

  abbrev after_submission : Result Thrown Submitted → Waited R
  after_submission (err e) = stopped e
  after_submission (ok s) = wait_for s

  abbrev submit : Result Thrown T → Waited R
  submit (err e) = stopped e
  submit (ok t) = after_submission (with_timeout c "sendTransaction" (send t))

  unfoldable pub submit_and_wait : Waited R
  submit_and_wait = submit parsed
