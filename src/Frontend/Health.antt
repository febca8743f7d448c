-- ===== src/Frontend/Health.antt =====
-- frontend/lib/rpc-health.ts, and the durations of components/NetworkHealthWidget.tsx. Times are whole
-- milliseconds of a clock that does not go back.
pub mod Metrics
mod Tests
use stellar_quorum.Base.{ℕ, ◌-◌, ◌/◌, String, Bool, false, ltb, Option, none, some, if◌then◌else◌}
use stellar_quorum.Base.Result.{Result, ok, err}
use stellar_quorum.Base.Text.{◌<>◌, decimal}

abbrev pub stale_threshold_ms : ℕ
stale_threshold_ms = 30000

-- The provider's state.
pub record RpcHealth : Type 0 where
  pub last_successful_read : Option ℕ
  pub last_latency_ms : Option ℕ
  pub last_ledger : Option ℕ
  pub ledger_lag : Option ℕ

pub record RpcHealthMetrics : Type 0 where
  pub last_successful_read : Option ℕ
  pub last_latency_ms : Option ℕ
  pub is_stale : Bool
  pub last_ledger : Option ℕ
  pub ledger_lag : Option ℕ

abbrev pub no_reads : RpcHealth
no_reads = record {
  last_successful_read = none;
  last_latency_ms = none;
  last_ledger = none;
  ledger_lag = none;
}

-- `now` and `again` are the two readings of the clock in the callback.
unfoldable pub record_successful_read : ℕ → ℕ → ℕ → Option ℕ → RpcHealth → RpcHealth
record_successful_read now again latency_ms none s = record s {
  last_successful_read = some now;
  last_latency_ms = some latency_ms;
}
record_successful_read now again latency_ms (some ledger) s = record s {
  last_successful_read = some now;
  last_latency_ms = some latency_ms;
  last_ledger = some ledger;
  ledger_lag = some ((again - now) / 5000);
}

abbrev older : ℕ → Option ℕ → Bool
older now none = false
older now (some read) = ltb stale_threshold_ms (now - read)

unfoldable pub metrics : ℕ → RpcHealth → RpcHealthMetrics
metrics now s = record {
  last_successful_read = s.last_successful_read;
  last_latency_ms = s.last_latency_ms;
  is_stale = older now s.last_successful_read;
  last_ledger = s.last_ledger;
  ledger_lag = s.ledger_lag;
}

-- The wrapped function: a read that began at `start` and settled at `settled`; the callback's readings
-- of the clock follow.
unfoldable pub with_rpc_health_tracking :
    {E A : Type 0} → ℕ → ℕ → ℕ → ℕ → Result E A → RpcHealth → RpcHealth
unfolding record_successful_read
with_rpc_health_tracking start settled now again (ok a) s =
    record_successful_read now again (settled - start) none s
with_rpc_health_tracking start settled now again (err e) s = s

unfoldable pub format_duration : ℕ → String
unfolding decimal
format_duration ms =
    if ltb ms 1000
    then decimal ms <> "ms"
    else if ltb ms 60000
    then decimal (ms / 1000) <> "s"
    else decimal (ms / 60000) <> "m"
