-- ===== src/Frontend/Health/Metrics.antt =====
-- What the metrics say after a read.
use stellar_quorum.Base.{ℕ, ◌+◌, ◌<◌, ◌≡◌, refl, ap, ltb, some, arith}
use stellar_quorum.Frontend.Health.{RpcHealth, record_successful_read, metrics, stale_threshold_ms}

-- After a read that gave a ledger, the metrics turn stale when more than the threshold has passed; the
-- lag is zero at any time, though, if the callback reads its clock twice within five seconds.
pub metrics-record_successful_read :
    (s : RpcHealth) (read_at again latency ledger later : ℕ)
    → again < read_at + 5000
    → let m =
        metrics (read_at + later) (record_successful_read read_at again latency (some ledger) s) in
      (m.is_stale ≡ ltb stale_threshold_ms later)
      × (m.ledger_lag ≡ some 0)
      × (m.last_ledger ≡ some ledger)
unfolding metrics record_successful_read
metrics-record_successful_read s read_at again latency ledger later h =
    (ground arith, ap some (omega arith), refl)
