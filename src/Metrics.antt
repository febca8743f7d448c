-- ===== src/Metrics.antt =====
-- metrics.js: the exporter of metrics for operational scripts. An operation that throws part of the way
-- leaves behind what it has changed, so each gives the new state and its outcome.
pub mod LabelSets
pub mod Instruments
pub mod Calls
mod Tests
use text.Mathlib.Text.{◌==◌ as same_text}
use stellar_quorum.Base.{
  ℕ, String, Bool, true, false, ◌||◌, not, Option, none, some, List, [], ◌∷◌, ◌++◌, get_or,
  if◌then◌else◌,
}
use stellar_quorum.Base.Result.{Result, ok, err, ◌>>◌}
use stellar_quorum.Base.Text.{◌<>◌}
use LabelSets.{Labels}
use Instruments.{
  Numbers, Failure, raised, Histogram, Counter, Gauge, or_else, new_histogram, observe, inc,
  set_gauge, print_histogram, print_counter, print_gauge,
}

pub record Metrics (F : Type 0) : Type 0 where
  pub rpc_latency : Histogram F
  pub rpc_errors : Counter
  pub rpc_calls : Counter
  pub last_seen_ledger : Gauge F
  pub last_seen_ledger_timestamp : Gauge F

-- The labels of a call: each may be left out.
pub record CallLabels : Type 0 where
  pub method : Option String
  pub service : Option String
  pub status : Option String

-- What the wrapped value is: a function, with how the promise of its result settles, or no function.
-- A promise's `then` passes over what is no function, and goes on with its own value, `undefined`.
pub data Callee (E T : Type 0) : Type 0 where
  function : Result E T → Callee E T
  no_function : Callee E T

pub data Settled (T : Type 0) : Type 0 where
  value : T → Settled T
  undefined : Settled T

pub record Response : Type 0 where
  pub status_code : ℕ
  pub content_type : Option String
  pub allow : Option String
  pub body : Option String

-- `labels.status === 'error'`
abbrev pub is_error : Option String → Bool
is_error none = false
is_error (some s) = same_text s "error"

abbrev pub base_labels : CallLabels → Labels
base_labels l =
    ("method", or_else l.method "unknown") ∷ ("service", or_else l.service "unknown") ∷ []

abbrev pub with_status : CallLabels → Labels
with_status l = base_labels l ++ ("status", if is_error l.status then "error" else "ok") ∷ []

abbrev new_counter : String → String → Counter
new_counter name help = record { name = name; help = help; series = [] }

abbrev new_gauge : {F : Type 0} → String → String → Gauge F
new_gauge name help = record { name = name; help = help; series = [] }

-- `{ ...defaultLabels, ...callLabels }`
abbrev pub merged : CallLabels → CallLabels → CallLabels
merged defaults call = record {
  method = elim call.method [ none ↦ defaults.method | some m ↦ some m ];
  service = elim call.service [ none ↦ defaults.service | some s ↦ some s ];
  status = elim call.status [ none ↦ defaults.status | some s ↦ some s ];
}

abbrev settled : {E T : Type 0} → Callee E T → Result E (Settled T)
settled no_function = ok undefined
settled (function (ok v)) = ok (value v)
settled (function (err e)) = err e

module _ {F : Type 0} (num : Numbers F) where
  unfoldable pub create_metrics : Option String → List F → Metrics F
  create_metrics namespace buckets =
      let prefix = or_else namespace "governance" in
      record {
        rpc_latency =
            new_histogram num (prefix <> "_rpc_call_latency_seconds")
              "Latency of RPC calls in seconds." buckets;
        rpc_errors =
            new_counter (prefix <> "_rpc_call_errors_total") "Total number of failed RPC calls.";
        rpc_calls =
            new_counter (prefix <> "_rpc_calls_total") "Total number of RPC calls attempted.";
        last_seen_ledger =
            new_gauge (prefix <> "_last_seen_ledger")
              "Latest ledger sequence observed by this service.";
        last_seen_ledger_timestamp =
            new_gauge (prefix <> "_last_seen_ledger_timestamp_seconds")
              "Unix timestamp (seconds) when the last ledger was observed.";
      }

  module _ {E : Type 0} where
    abbrev with_latency :
        Metrics F
        → Histogram F × Result (Failure E) (Unit {0})
        → Metrics F × Result (Failure E) (Unit {0})
    with_latency m (h, outcome) = (record m { rpc_latency = h }, outcome)

    unfoldable pub observe_request :
        F → CallLabels → Metrics F → Metrics F × Result (Failure E) (Unit {0})
    observe_request duration labels m =
        let counted = record m { rpc_calls = inc (with_status labels) 1 m.rpc_calls } in
        if is_error labels.status
        then (record counted { rpc_errors = inc (with_status labels) 1 m.rpc_errors }, ok tt)
        else with_latency counted
            (observe num (num.thousandth duration) (base_labels labels) m.rpc_latency)

    abbrev then_timestamp :
        F
        → Labels
        → Metrics F
        → Gauge F × Result (Failure E) (Unit {0})
        → Metrics F × Result (Failure E) (Unit {0})
    then_timestamp now labels m (g, err e) = (record m { last_seen_ledger = g }, err e)
    then_timestamp now labels m (g, ok _) =
        let (t, outcome) = set_gauge num now labels m.last_seen_ledger_timestamp in
        (record m { last_seen_ledger = g; last_seen_ledger_timestamp = t }, outcome)

    -- `now` is the time in seconds.
    unfoldable pub set_last_seen_ledger :
        F → F → CallLabels → Metrics F → Metrics F × Result (Failure E) (Unit {0})
    set_last_seen_ledger now sequence labels m =
        let l = ("service", or_else labels.service "unknown") ∷ [] in
        then_timestamp now l m (set_gauge num sequence l m.last_seen_ledger)

    -- The two handlers of the `then`: what they throw replaces the outcome of the call.
    abbrev pub noted :
        {T : Type 0} → CallLabels → Metrics F → Result E T → Metrics F × Result (Failure E) T
    noted labels m (ok v) =
        let (m', outcome) =
          observe_request num.not_a_number (record labels { status = some "ok" }) m in
        (m', outcome >> ok v)
    noted labels m (err e) =
        let (m', outcome) =
          observe_request num.not_a_number (record labels { status = some "error" }) m in
        (m', outcome >> err (raised e))

    -- A duration is `Number(process.hrtime() - start) / 1e6`: the difference of two arrays is NaN.
    unfoldable pub wrapped :
        {T : Type 0}
        → CallLabels
        → CallLabels
        → Callee E T
        → Metrics F
        → Metrics F × Result (Failure E) (Settled T)
    wrapped default_labels call_labels callee m =
        noted (merged default_labels call_labels) m (settled callee)

  abbrev lines_end : List String → String
  lines_end [] = "\n"
  lines_end (x ∷ []) = x <> "\n"
  lines_end (x ∷ y ∷ ys) = x <> "\n" <> lines_end (y ∷ ys)

  unfoldable pub render : Metrics F → String
  render m = lines_end (
      print_histogram num m.rpc_latency
      ++ print_counter m.rpc_calls
      ++ print_counter m.rpc_errors
      ++ print_gauge num m.last_seen_ledger
      ++ print_gauge num m.last_seen_ledger_timestamp)

  abbrev plain_text : ℕ → String → Response
  plain_text code body = record {
    status_code = code;
    content_type = some "text/plain; charset=utf-8";
    allow = none;
    body = some body;
  }

  -- The request handler of `listen`: the request's method and the path of its URL.
  unfoldable pub respond : String → String → String → Metrics F → Response
  respond path method pathname m =
      if not (same_text method "GET" || same_text method "HEAD")
      then record {
        status_code = 405;
        content_type = none;
        allow = some "GET, HEAD";
        body = some "Method Not Allowed\n";
      }
      else if same_text pathname path
      then record {
        status_code = 200;
        content_type = some "text/plain; version=0.04+ charset=utf-8";
        allow = none;
        body = if same_text method "HEAD" then none else some (render m);
      }
      else if same_text pathname "/healthz"
      then plain_text 200 "ok\n"
      else plain_text 404 "Not Found\n"
