-- ===== src/Frontend/Health/Tests.antt =====
-- The health of an RPC server over time.
use stellar_quorum.Base.{◌≡◌, refl, ltb}
use stellar_quorum.Base.Text.{decimal, decimal_onto}
use stellar_quorum.Frontend.Health.{no_reads, metrics, format_duration}

never_stale_before_a_read : (metrics 99999 no_reads).is_stale ≡ ltb 1 0
unfolding metrics
never_stale_before_a_read = refl

two_minutes : format_duration 120000 ≡ "2m"
unfolding format_duration decimal decimal_onto
two_minutes = refl
