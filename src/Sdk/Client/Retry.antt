-- ===== src/Sdk/Client/Retry.antt =====
-- `read` of sdk/src/client.ts: reads are tried again after a transient failure.
-- `request n` is what the network does with attempt `n`, `draw n` the random number drawn for the
-- delay behind it.
mod Tests
use mathlib.Core.Path.{subst}
use stellar_quorum.Base.{
  ℕ, zero, suc, ◌+◌, ◌*◌, ◌^◌, ◌%◌, ◌-◌, ◌≤◌, ◌<◌, String, ◌≡◌, refl, Bool, true, false, not, ◌||◌,
  ◌&&◌, List, [], ◌∷◌, ◌++◌, if◌then◌else◌, ◌==◌, get_or, ◌⊎◌, inl, inr, Bool-cases, arith, ap, ◌∙◌,
  sym,
}
use stellar_quorum.Base.Result.{Result, ok, err}
use stellar_quorum.Sdk.Types.{QuorumClientConfig}
use stellar_quorum.Sdk.Errors.{Thrown, rpc_timeout_error, instance_of, plain}
use stellar_quorum.Sdk.Client.Transport.{
  Response, with_timeout, request_timeout_of, is_rpc_timeout, is_timeout_error,
  is_transient_rpc_error, default_read_retry_attempts, default_retry_base_delay_ms,
  default_retry_jitter_ms,
}

-- What a read returned, how often it asked the network, and the delays between.
pub record Attempts (A : Type 0) : Type 0 where
  pub result : Result Thrown A
  pub calls : ℕ
  pub delays : List ℕ

abbrev pub attempts_of : QuorumClientConfig → ℕ
attempts_of c = get_or c.read_retry_attempts default_read_retry_attempts + 1

-- The error that is thrown in place of `e`.
abbrev pub last_error : QuorumClientConfig → String → Thrown → Thrown
last_error c operation e =
    if is_timeout_error e then rpc_timeout_error operation (request_timeout_of c) else e

-- `base * 2 ** attempt + Math.floor(Math.random() * (jitter + 1))`
abbrev pub backoff : QuorumClientConfig → (ℕ → ℕ) → ℕ → ℕ
backoff c draw attempt =
    get_or c.retry_base_delay_ms default_retry_base_delay_ms * 2 ^ attempt
    + draw attempt % (get_or c.retry_jitter_ms default_retry_jitter_ms + 1)

module _ {A : Type 0} (c : QuorumClientConfig) (operation : String) (request : ℕ → Response A)
    (draw : ℕ → ℕ) where
  abbrev final : Result Thrown A → Attempts A
  final r = record { result = r; calls = 1; delays = [] }

  abbrev again : ℕ → Attempts A → Attempts A
  again d t = record { result = t.result; calls = suc t.calls; delays = d ∷ t.delays }

  -- The loop; `rounds` counts the attempts that are left. After the last one nothing is left to
  -- throw but the `undefined` that `lastError` starts as.
  unfoldable pub read_loop : ℕ → ℕ → ℕ → Attempts A
  read_loop attempts zero attempt = record {
    result = err (instance_of (plain "undefined") "");
    calls = 0;
    delays = [];
  }
  read_loop attempts (suc rounds) attempt =
      let rest = read_loop attempts rounds (suc attempt) in
      elim (with_timeout c operation (request attempt)) [
        | ok v ↦ final (ok v)
        | err e ↦
            if is_rpc_timeout (last_error c operation e).class
              || not (is_transient_rpc_error e)
              || attempt == attempts - 1
            then final (err (last_error c operation e))
            else again (backoff c draw attempt) rest
      ]

  unfoldable pub read : Attempts A
  read = read_loop (attempts_of c) (attempts_of c) 0

  -- What one attempt comes to, if it is the last.
  unfoldable pub outcome : ℕ → Result Thrown A
  outcome k = elim (with_timeout c operation (request k)) [
    | ok v ↦ ok v
    | err e ↦ err (last_error c operation e)
  ]

  -- A failure that another attempt may mend.
  unfoldable pub retryable : ℕ → Bool
  retryable k = elim (with_timeout c operation (request k)) [
    | ok v ↦ false
    | err e ↦ not (is_rpc_timeout (last_error c operation e).class) && is_transient_rpc_error e
  ]

  -- The delays after the attempts `k`, `k + 1`, …, `n` of them.
  unfoldable pub backoffs : ℕ → ℕ → List ℕ
  backoffs k zero = []
  backoffs k (suc n) = backoff c draw k ∷ backoffs (suc k) n

  -- The attempts `k`, `k + 1`, …, `n` of them, fail in a way that another attempt may mend.
  abbrev pub AllRetryable : ℕ → ℕ → Type 0
  AllRetryable k zero = Unit
  AllRetryable k (suc n) = (retryable k ≡ true) × AllRetryable (suc k) n

  -- The loop from attempt `k` on stops at attempt `last`, `n` attempts later.
  pub record StopsAt (k rounds : ℕ) (t : Attempts A) : Type 0 where
    pub n : ℕ
    pub last : ℕ
    pub place : last ≡ k + n
    pub in_time : n < rounds
    pub earlier : AllRetryable k n
    pub result : t.result ≡ outcome last
    pub calls : t.calls ≡ suc n
    pub delays : t.delays ≡ backoffs k n
    pub stopped : (suc n ≡ rounds) ⊎ (retryable last ≡ false)

  StopsAt-here :
      (k rounds : ℕ) (t : Attempts A)
      → t ≡ final (outcome k)
      → (suc 0 ≡ suc rounds) ⊎ (retryable k ≡ false)
      → StopsAt k (suc rounds) t
  unfolding backoffs
  StopsAt-here k rounds t e stop = record {
    n = 0;
    last = k;
    place = omega arith;
    in_time = omega arith;
    earlier = tt;
    result = ap (λ (a : Attempts A). a.result) e;
    calls = ap (λ (a : Attempts A). a.calls) e;
    delays = ap (λ (a : Attempts A). a.delays) e;
    stopped = stop;
  }

  StopsAt-later :
      (k rounds : ℕ) (t rest : Attempts A)
      → t ≡ again (backoff c draw k) rest
      → retryable k ≡ true
      → StopsAt (suc k) rounds rest
      → StopsAt k (suc rounds) t
  unfolding backoffs
  StopsAt-later k rounds t rest e again_ok s = record {
    n = suc s.n;
    last = s.last;
    place = omega (arith, s.place);
    in_time = omega (arith, s.in_time);
    earlier = (again_ok, s.earlier);
    result = ap (λ (a : Attempts A). a.result) e ∙ s.result;
    calls = ap (λ (a : Attempts A). a.calls) e ∙ ap suc s.calls;
    delays = ap (λ (a : Attempts A). a.delays) e ∙ ap (λ l. backoff c draw k ∷ l) s.delays;
    stopped = ground (arith, s.stopped);
  }

  read_loop-cases :
      (attempts rounds k : ℕ)
      → attempts ≡ k + suc rounds
      → ((read_loop attempts (suc rounds) k ≡ final (outcome k))
          × ((suc 0 ≡ suc rounds) ⊎ (retryable k ≡ false)))
        ⊎ ((read_loop attempts (suc rounds) k
              ≡ again (backoff c draw k) (read_loop attempts rounds (suc k)))
            × (retryable k ≡ true)
            × (0 < rounds))
  unfolding read_loop outcome retryable
  read_loop-cases attempts rounds k e = ground arith

  read_loop-StopsAt :
      (attempts rounds k : ℕ)
      → attempts ≡ k + suc rounds
      → StopsAt k (suc rounds) (read_loop attempts (suc rounds) k)
  read_loop-StopsAt attempts zero k e = elim (read_loop-cases attempts zero k e) [
    | inl (here, stop) ↦ StopsAt-here k zero _ here stop
    | inr (later, more, left) ↦ absurd (omega arith)
  ]
  read_loop-StopsAt attempts (suc rounds) k e = elim (read_loop-cases attempts (suc rounds) k e) [
    | inl (here, stop) ↦ StopsAt-here k (suc rounds) _ here stop
    | inr (later, more, left) ↦
        StopsAt-later k (suc rounds) _ _ later more
          (read_loop-StopsAt attempts rounds (suc k) (omega arith))
  ]

  -- A read stops at its first attempt that succeeds, times out or fails in a way that another
  -- attempt cannot mend, and at the latest after `readRetryAttempts + 1` attempts. It returns or
  -- throws what that attempt came to, and it has asked the network once for each attempt, with the
  -- backoff of its place between two of them.
  pub read-StopsAt : StopsAt 0 (attempts_of c) read
  unfolding read
  read-StopsAt =
      let n = get_or c.read_retry_attempts default_read_retry_attempts in
      let e : attempts_of c ≡ suc n = omega arith in
      subst (λ m. StopsAt 0 m (read_loop m m 0)) (sym e)
        (read_loop-StopsAt (suc n) n 0 (omega arith))

  read_loop_timed_out :
      (attempts rounds k : ℕ) (e : Thrown)
      → with_timeout c operation (request k) ≡ err e
      → is_timeout_error e ≡ true
      → read_loop attempts (suc rounds) k
        ≡ final (err (rpc_timeout_error operation (request_timeout_of c)))
  unfolding read_loop rpc_timeout_error
  read_loop_timed_out attempts rounds k e failed timed_out = ground arith

  -- A failure that reads as a timeout is thrown as `RpcTimeoutError` after the one attempt, however
  -- many are allowed.
  pub read_timed_out :
      (e : Thrown)
      → with_timeout c operation (request 0) ≡ err e
      → is_timeout_error e ≡ true
      → read ≡ record {
        result = err (rpc_timeout_error operation (request_timeout_of c));
        calls = 1;
        delays = [];
      }
  unfolding read
  read_timed_out e failed timed_out =
      let n = get_or c.read_retry_attempts default_read_retry_attempts in
      let m : attempts_of c ≡ suc n = omega arith in
      ap (λ k. read_loop (attempts_of c) k 0) m
      ∙ read_loop_timed_out (attempts_of c) n 0 e failed timed_out
