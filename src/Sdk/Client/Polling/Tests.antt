-- ===== src/Sdk/Client/Polling/Tests.antt =====
-- Runs of `submitAndWait`, and its properties at inputs that meet their premises.
use stellar_quorum.Base.{ℕ, zero, suc, String, ◌≡◌, refl, none, some, arith}
use stellar_quorum.Base.Result.{Result, ok}
use stellar_quorum.Sdk.Types.{TransactionConfirmationOptions}
use stellar_quorum.Sdk.Errors.{Thrown}
use stellar_quorum.Sdk.Client.Samples.{plain_config}
use stellar_quorum.Sdk.Client.Transport.{Response, with_timeout}
use stellar_quorum.Sdk.Client.Polling.{
  Submitted, TransactionStatus, success, not_found, submit_and_wait, wait_loop,
}
use stellar_quorum.Sdk.Client.Polling.Waiting.{StopsInTime, submit_and_wait-Stops}

abbrev quick : TransactionConfirmationOptions
quick = record { poll_interval_ms = some 2; timeout_ms = some 9 }

abbrev signed : Result Thrown String
signed = ok "signed"

abbrev accepted : Submitted
accepted = record { hash = "abc"; failed = none }

abbrev send : String → Response Submitted
send t = record { after = some 3; result = ok accepted }

-- Found by the third poll.
abbrev statuses : ℕ → Result Thrown (TransactionStatus ℕ)
statuses zero = ok not_found
statuses (suc zero) = ok not_found
statuses _ = ok (success 5)

abbrev ledger : String → ℕ → Result Thrown (TransactionStatus ℕ)
ledger hash n = statuses n

abbrev took : ℕ → ℕ
took n = 1

abbrev late : ℕ → ℕ
late n = 0

sent_in_time : with_timeout plain_config "sendTransaction" (send "signed") ≡ ok accepted
unfolding with_timeout
sent_in_time = refl

third_poll :
    submit_and_wait plain_config quick signed send ledger took late 100
    ≡ record { answer = some (ok 5); polls = 3 }
unfolding submit_and_wait with_timeout wait_loop
third_poll = refl

third_answer :
    (submit_and_wait plain_config quick signed send ledger took late 100).answer ≡ some (ok 5)
unfolding submit_and_wait with_timeout wait_loop
third_answer = refl

submit_and_wait-Stops_example :
    StopsInTime plain_config quick signed send ledger took late 100 "abc"
      (submit_and_wait plain_config quick signed send ledger took late 100)
submit_and_wait-Stops_example =
    submit_and_wait-Stops plain_config quick signed send ledger took late 100 "signed" accepted refl
      sent_in_time refl (omega arith)
