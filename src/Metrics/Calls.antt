-- ===== src/Metrics/Calls.antt =====
-- What the exporter makes of a run of instrumented calls.
use mathlib.Core.Path.{fun_ext}
use text.Mathlib.Text.{◌==◌ as same_text}
use text.Mathlib.TextEquality.{eq_iff}
use stellar_quorum.Base.{
  ℕ, ◌+◌, String, ◌≡◌, refl, Bool, true, false, some, List, [], ◌∷◌, if◌then◌else◌, arith,
}
use stellar_quorum.Base.Result.{ok, err}
use stellar_quorum.Sdk.Cache.EntryMap.{get, get-set}
use stellar_quorum.Metrics.LabelSets.{Labels, label_key}
use stellar_quorum.Metrics.Instruments.{
  Numbers, Failure, raised, not_a_function, Counter, inc, number_finite, observe, value_or_zero,
  labels_or,
}
use stellar_quorum.Metrics.{
  Metrics, CallLabels, Callee, function, no_function, merged, with_status, observe_request, wrapped,
}

-- A counter as the function from label sets, by their key, to numbers.
abbrev pub counted : Counter → String → ℕ
counted c k = value_or_zero (get k c.series)

-- Adding at one label set.
abbrev pub add_at : Labels → ℕ → (String → ℕ) → String → ℕ
add_at labels by f k = if same_text (label_key labels) k then f k + by else f k

pub counted-inc :
    (labels : Labels) (by : ℕ) (c : Counter)
    → counted (inc labels by c) ≡ add_at labels by (counted c)
unfolding inc
counted-inc labels by c = fun_ext λ k. ground (
  arith,
  get-set (label_key labels) k
      (
        labels_or (get (label_key labels) c.series) labels,
        value_or_zero (get (label_key labels) c.series) + by,
      )
      c.series,
  eq_iff (label_key labels) k,
)

module _ {F E T : Type 0} (num : Numbers F) (defaults : CallLabels) where
  -- The state after calls, made one after the other.
  pub run : List (CallLabels × Callee E T) → Metrics F → Metrics F
  run [] m = m
  run ((labels, callee) ∷ more) m = run more (wrapped num defaults labels callee m).0

  abbrev pub fails : Callee E T → Bool
  fails no_function = false
  fails (function r) = elim r [ ok v ↦ false | err e ↦ true ]

  -- The label set that a call is counted under.
  abbrev pub counted_under : CallLabels → Callee E T → Labels
  counted_under labels callee =
      with_status
        (record (merged defaults labels) { status = some (if fails callee then "error" else "ok") })

  abbrev pub all_calls : List (CallLabels × Callee E T) → (String → ℕ) → String → ℕ
  all_calls [] f = f
  all_calls ((labels, callee) ∷ more) f = all_calls more (add_at (counted_under labels callee) 1 f)

  abbrev pub failed_calls : List (CallLabels × Callee E T) → (String → ℕ) → String → ℕ
  failed_calls [] f = f
  failed_calls ((labels, callee) ∷ more) f =
      failed_calls more (if fails callee then add_at (counted_under labels callee) 1 f else f)

  -- What an instrumented call is rejected with.
  abbrev pub rejection : Callee E T → Failure E
  rejection no_function = not_a_function
  rejection (function (ok v)) = not_a_function
  rejection (function (err e)) = raised e

  -- Since there is no `Number.finite`, an instrumented call is never resolved: one that succeeds is
  -- rejected with a TypeError, and no latency is recorded; one that fails is rejected with its error.
  pub wrapped-eq-err :
      (labels : CallLabels) (callee : Callee E T) (m : Metrics F)
      → ((wrapped num defaults labels callee m).1 ≡ err (rejection callee))
        × ((wrapped num defaults labels callee m).0.rpc_latency ≡ m.rpc_latency)
  unfolding wrapped observe_request observe number_finite
  wrapped-eq-err labels no_function m = (refl, refl)
  wrapped-eq-err labels (function (ok v)) m = (refl, refl)
  wrapped-eq-err labels (function (err e)) m = (refl, refl)
