-- ===== src/Sdk/Client/Transport.antt =====
-- How the client of sdk/src/client.ts reads a failed request, and its own deadline.
-- A request is what the network does with it: after how many milliseconds it settles, if it does,
-- and with what.
use text.Mathlib.Text.{◌==◌ as same_text}
use stellar_quorum.Base.{
  ℕ, String, Bool, true, false, ◌||◌, Option, none, some, List, [], ◌∷◌, if◌then◌else◌, ltb, leb,
  ◌==◌, get_or, or_else,
}
use stellar_quorum.Base.Result.{Result, err}
use stellar_quorum.Base.Text.{includes_any, includes_ci}
use stellar_quorum.Sdk.Types.{QuorumClientConfig}
use stellar_quorum.Sdk.Errors.{Thrown, ErrorClass, ErrorCode, word, rpc_timeout, rpc_timeout_error}

abbrev pub default_request_timeout_ms : ℕ
default_request_timeout_ms = 15000

abbrev pub default_read_retry_attempts : ℕ
default_read_retry_attempts = 2

abbrev pub default_retry_base_delay_ms : ℕ
default_retry_base_delay_ms = 100

abbrev pub default_retry_jitter_ms : ℕ
default_retry_jitter_ms = 50

abbrev pub default_poll_interval_ms : ℕ
default_poll_interval_ms = 1000

abbrev pub default_confirmation_timeout_ms : ℕ
default_confirmation_timeout_ms = 60000

pub record Response (A : Type 0) : Type 0 where
  pub after : Option ℕ
  pub result : Result Thrown A

-- `candidate.code === w`
abbrev has_code : String → Option ErrorCode → Bool
has_code w none = false
has_code w (some (word v)) = same_text v w
has_code w (some _) = false

abbrev transient_words : List String
transient_words =
    "timeout" ∷ "temporar" ∷ "network" ∷ "fetch failed" ∷ "rate limit" ∷ "try again" ∷ []

abbrev transient_status : Option ℕ → Bool
transient_status none = false
transient_status (some s) = s == 408 || s == 429 || leb 500 s

unfoldable pub is_transient_rpc_error : Thrown → Bool
unfolding includes_any
is_transient_rpc_error e =
    transient_status (or_else e.response_status e.status)
    || has_code "ECONNRESET" e.code
    || has_code "ETIMEDOUT" e.code
    || includes_any transient_words (get_or e.message "")

unfoldable pub is_timeout_error : Thrown → Bool
unfolding includes_ci
is_timeout_error e =
    has_code "ECONNABORTED" e.code
    || has_code "ETIMEDOUT" e.code
    || includes_ci "timeout" (get_or e.message "")

-- `error instanceof RpcTimeoutError`
abbrev pub is_rpc_timeout : ErrorClass → Bool
is_rpc_timeout rpc_timeout = true
is_rpc_timeout _ = false

abbrev pub request_timeout_of : QuorumClientConfig → ℕ
request_timeout_of c = get_or c.request_timeout_ms default_request_timeout_ms

-- `withTimeout`: the race of the request and the timer. A request that settles with the timer, in
-- the same millisecond, is taken to lose.
unfoldable pub with_timeout :
    {A : Type 0} → QuorumClientConfig → String → Response A → Result Thrown A
with_timeout c operation r =
    let late = err (rpc_timeout_error operation (request_timeout_of c)) in
    elim r.after [ none ↦ late | some d ↦ if ltb d (request_timeout_of c) then r.result else late ]
