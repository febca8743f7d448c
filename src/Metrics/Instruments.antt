-- ===== src/Metrics/Instruments.antt =====
-- The three instruments of metrics.js. A number is a double: its operations are `Numbers`.
use stellar_quorum.Base.{
  ℕ, ◌+◌, String, Bool, not, ◌||◌, Option, none, some, List, [], ◌∷◌, ◌++◌, get_or, if◌then◌else◌,
}
use stellar_quorum.Base.Result.{Result, ok, err}
use stellar_quorum.Base.Sort.{sort}
use stellar_quorum.Base.Text.{◌<>◌, decimal}
use stellar_quorum.Sdk.Cache.EntryMap.{Entries, get, set}
use stellar_quorum.Metrics.LabelSets.{Labels, label_key, format_labels}

pub record Numbers (F : Type 0) : Type 0 where
  pub zero_value : F
  pub plus : F → F → F
  pub at_most : F → F → Bool
  pub is_negative : F → Bool
  pub thousandth : F → F
  pub not_a_number : F
  pub print : F → String

-- `Number.finite`: ECMAScript has `Number.isFinite`, and no member of this name.
unfoldable pub number_finite : {F : Type 0} → Option (F → Bool)
number_finite = none

-- What a promise is rejected with: a TypeError of the runtime, or what the called function threw.
pub data Failure (E : Type 0) : Type 0 where
  type_error : String → Failure E
  raised : E → Failure E

abbrev pub not_a_function : {E : Type 0} → Failure E
not_a_function = type_error "Number.finite is not a function"

pub record Series (F : Type 0) : Type 0 where
  pub labels : Labels
  pub counts : List ℕ
  pub sum : F
  pub count : ℕ

pub record Histogram (F : Type 0) : Type 0 where
  pub name : String
  pub help : String
  pub buckets : List F
  pub series : Entries (Series F)

pub record Counter : Type 0 where
  pub name : String
  pub help : String
  pub series : Entries (Labels × ℕ)

pub record Gauge (F : Type 0) : Type 0 where
  pub name : String
  pub help : String
  pub series : Entries (Labels × F)

abbrev pub zeros : {F : Type 0} → List F → List ℕ
zeros [] = []
zeros (b ∷ bs) = 0 ∷ zeros bs

-- `value || fallback` of a text
abbrev pub or_else : Option String → String → String
or_else none fallback = fallback
or_else (some String.[]) fallback = fallback
or_else (some (String.◌∷◌ c cs)) fallback = String.◌∷◌ c cs

abbrev pub value_or_zero : Option (Labels × ℕ) → ℕ
value_or_zero none = 0
value_or_zero (some (labels, n)) = n

-- The labels that the series was made with stay.
abbrev pub labels_or : Option (Labels × ℕ) → Labels → Labels
labels_or none labels = labels
labels_or (some (old, n)) labels = old

unfoldable pub inc : Labels → ℕ → Counter → Counter
inc labels by c =
    let current = get (label_key labels) c.series in
    record c {
      series =
          set (label_key labels) (labels_or current labels, value_or_zero current + by) c.series;
    }

module _ {F : Type 0} (num : Numbers F) where
  abbrev pub is_above : F → F → Bool
  is_above a b = not (num.at_most a b)

  -- `_get`
  unfoldable pub series_for : Labels → Histogram F → Series F
  series_for labels h =
      get_or (get (label_key labels) h.series)
        (record { labels = labels; counts = zeros h.buckets; sum = num.zero_value; count = 0 })

  -- The loop over the buckets.
  unfoldable pub tally : F → List F → List ℕ → List ℕ
  tally v [] ns = ns
  tally v (b ∷ bs) [] = []
  tally v (b ∷ bs) (n ∷ ns) = (if num.at_most v b then n + 1 else n) ∷ tally v bs ns

  unfoldable pub observed : F → List F → Series F → Series F
  observed v buckets s = record s {
    sum = num.plus s.sum v;
    count = s.count + 1;
    counts = tally v buckets s.counts;
  }

  unfoldable pub observe :
      {E : Type 0} → F → Labels → Histogram F → Histogram F × Result (Failure E) (Unit {0})
  observe v labels h = elim (number_finite {F = F}) [
    | none ↦ (h, err not_a_function)
    | some finite ↦ if not (finite v) || num.is_negative v then (h, ok tt) else (
      record h {
        series = set (label_key labels) (observed v h.buckets (series_for labels h)) h.series;
      },
      ok tt,
    )
  ]

  unfoldable pub set_gauge :
      {E : Type 0} → F → Labels → Gauge F → Gauge F × Result (Failure E) (Unit {0})
  set_gauge v labels g = elim (number_finite {F = F}) [
    | none ↦ (g, err not_a_function)
    | some finite ↦
        if not (finite v)
        then (g, ok tt)
        else (record g { series = set (label_key labels) (labels, v) g.series }, ok tt)
  ]

  unfoldable pub new_histogram : String → String → List F → Histogram F
  new_histogram name help buckets = record {
    name = name;
    help = help;
    buckets = sort is_above buckets;
    series = [];
  }

  abbrev heading : String → String → String → List String
  heading name help kind =
      ("# HELP " <> name <> " " <> help) ∷ ("# TYPE " <> name <> " " <> kind) ∷ []

  -- `{ ...labels, le }` and its count, for each bucket.
  abbrev bucket_line : String → Labels → String → ℕ → String
  bucket_line name labels le n =
      name <> "_bucket" <> format_labels (set "le" le labels) <> " " <> decimal n

  abbrev bucket_lines : String → Labels → List F → List ℕ → List String
  bucket_lines name labels [] ns = []
  bucket_lines name labels (b ∷ bs) [] = []
  bucket_lines name labels (b ∷ bs) (n ∷ ns) =
      bucket_line name labels (num.print b) n ∷ bucket_lines name labels bs ns

  abbrev series_lines : String → List F → Entries (Series F) → List String
  series_lines name buckets [] = []
  series_lines name buckets ((_, s) ∷ more) =
      bucket_lines name s.labels buckets s.counts
      ++ bucket_line name s.labels "+Inf" s.count
        ∷ (name <> "_sum" <> format_labels s.labels <> " " <> num.print s.sum)
        ∷ (name <> "_count" <> format_labels s.labels <> " " <> decimal s.count)
        ∷ series_lines name buckets more

  unfoldable pub print_histogram : Histogram F → List String
  print_histogram h = heading h.name h.help "histogram" ++ series_lines h.name h.buckets h.series

  abbrev gauge_lines : String → Entries (Labels × F) → List String
  gauge_lines name [] = []
  gauge_lines name ((_, (labels, v)) ∷ more) =
      (name <> format_labels labels <> " " <> num.print v) ∷ gauge_lines name more

  unfoldable pub print_gauge : Gauge F → List String
  print_gauge g = heading g.name g.help "gauge" ++ gauge_lines g.name g.series

abbrev counter_lines : String → Entries (Labels × ℕ) → List String
counter_lines name [] = []
counter_lines name ((_, (labels, n)) ∷ more) =
    (name <> format_labels labels <> " " <> decimal n) ∷ counter_lines name more

unfoldable pub print_counter : Counter → List String
print_counter c =
    ("# HELP " <> c.name <> " " <> c.help)
    ∷ ("# TYPE " <> c.name <> " counter")
    ∷ counter_lines c.name c.series
