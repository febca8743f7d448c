-- ===== src/Metrics/Tests.antt =====
-- The exporter on sample calls; numbers are whole here.
use stellar_quorum.Base.{ℕ, ◌+◌, leb, String, ◌≡◌, refl, false, none, some, List, [], ◌∷◌}
use stellar_quorum.Base.Text.{decimal, decimal_onto}
use stellar_quorum.Base.Text.Replace.{replace_all, flat_map}
use stellar_quorum.Base.Result.{ok, err}
use stellar_quorum.Base.Sort.{sort, insert}
use stellar_quorum.Sdk.Cache.EntryMap.{set}
use stellar_quorum.Metrics.LabelSets.{label_key, format_labels, escape_label_value}
use stellar_quorum.Metrics.Instruments.{Numbers, not_a_function, print_histogram}
use stellar_quorum.Metrics.Calls.{wrapped-eq-err}
use stellar_quorum.Metrics.{Metrics, CallLabels, Callee, function, create_metrics, wrapped}

abbrev standard : Numbers ℕ
standard = record {
  zero_value = 0;
  plus = λ a b. a + b;
  at_most = leb;
  is_negative = λ a. false;
  thousandth = λ a. a;
  not_a_number = 0;
  print = decimal;
}

abbrev fresh : Metrics ℕ
fresh = create_metrics standard none (1 ∷ 5 ∷ [])

abbrev labels : CallLabels
labels = record { method = some "getLedger"; service = none; status = none }

abbrev none_given : CallLabels
none_given = record { method = none; service = none; status = none }

abbrev calls : List (CallLabels × Callee String ℕ)
calls = (labels, function (ok 7)) ∷ (labels, function (err "down")) ∷ []

quoted : escape_label_value "a\"b\\c\nd" ≡ "a\\\"b\\\\c\\nd"
unfolding escape_label_value replace_all flat_map
quoted = refl

printed :
    print_histogram standard (record {
      name = "latency";
      help = "Latency.";
      buckets = 1 ∷ 5 ∷ [];
      series =
          (label_key [], record { labels = []; counts = 0 ∷ 1 ∷ []; sum = 12; count = 2 }) ∷ [];
    })
    ≡ "# HELP latency Latency." ∷ "# TYPE latency histogram" ∷ "latency_bucket{le=\"1\"} 0"
      ∷ "latency_bucket{le=\"5\"} 1" ∷ "latency_bucket{le=\"+Inf\"} 2" ∷ "latency_sum 12"
      ∷ "latency_count 2" ∷ []
unfolding print_histogram label_key sort insert format_labels escape_label_value replace_all
    flat_map decimal decimal_onto set
printed = refl

wrapped-eq-err_example :
    ((wrapped standard {E = String} {T = ℕ} none_given labels (function (ok 7)) fresh).1
      ≡ err not_a_function)
    × ((wrapped standard {E = String} {T = ℕ} none_given labels
          (function (ok 7))
          fresh).0.rpc_latency
        ≡ fresh.rpc_latency)
wrapped-eq-err_example = wrapped-eq-err standard none_given labels (function (ok 7)) fresh
