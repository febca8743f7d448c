-- ===== src/Sdk/Client/Retry/Tests.antt =====
-- Runs of `read`, and its properties at inputs that meet their premises.
use stellar_quorum.Base.{ℕ, ◌+◌, zero, suc, ◌≡◌, refl, true, some, [], ◌∷◌}
use stellar_quorum.Base.Result.{ok, err}
use stellar_quorum.Sdk.Client.Samples.{plain_config}
use stellar_quorum.Sdk.Errors.{Thrown, instance_of, error, word, rpc_timeout_error}
use stellar_quorum.Sdk.Client.Transport.{
  Response, with_timeout, is_timeout_error, is_transient_rpc_error,
}
use stellar_quorum.Sdk.Client.Retry.{read, read_loop, StopsAt, read-StopsAt}

abbrev busy : Thrown
busy = record (instance_of error "Too many requests") { status = some 429 }

-- Two refusals, then a value.
abbrev flaky : ℕ → Response ℕ
flaky zero = record { after = some 10; result = err busy }
flaky (suc zero) = record { after = some 10; result = err busy }
flaky _ = record { after = some 10; result = ok 7 }

abbrev draws : ℕ → ℕ
draws n = 60 + n

flaky_run :
    read plain_config "getTransaction" flaky draws
    ≡ record { result = ok 7; calls = 3; delays = 109 ∷ 210 ∷ [] }
unfolding read read_loop with_timeout is_timeout_error is_transient_rpc_error rpc_timeout_error
flaky_run = refl

read-StopsAt_example :
    StopsAt plain_config "getTransaction" flaky draws 0 3
      (read plain_config "getTransaction" flaky draws)
read-StopsAt_example = read-StopsAt plain_config "getTransaction" flaky draws

abbrev aborted : Thrown
aborted = record (instance_of error "socket hang up") { code = some (word "ECONNABORTED") }

abbrev hanging : ℕ → Response ℕ
hanging _ = record { after = some 10; result = err aborted }

aborted_first : with_timeout plain_config "getTransaction" (hanging 0) ≡ err aborted
unfolding with_timeout
aborted_first = refl

aborted-is_timeout_error : is_timeout_error aborted ≡ true
unfolding is_timeout_error
aborted-is_timeout_error = refl
