-- ===== src/Observability/Collectors.antt =====
-- The collectors of prometheus that internal/observability/metrics/metrics.go uses. A collector is its
-- options and its samples, as prometheus keeps them: a vector has a sample for each list of label
-- values. A value is the exact number.
use verus_gateway.Base.{
  ℕ, ◌+◌, Bool, true, false, Option, none, some, List, [], ◌∷◌, ◌==◌, nat_eq, list_eq,
  if◌then◌else◌, length, every, ◌&&◌,
}
use verus_gateway.Base.Bytes.{Str}
use verus_gateway.Base.Utf8.{valid_string}
use verus_gateway.Base.Int.{ℤ, pos, negsuc, ltb_ℤ}

pub record Opts : Type 0 where
  pub namespace : Str
  pub name : Str
  pub help : Str

pub record Counter : Type 0 where
  pub opts : Opts
  pub value : ℕ

pub record Gauge : Type 0 where
  pub opts : Opts
  pub value : ℤ

pub record CounterVec : Type 0 where
  pub opts : Opts
  pub labels : List Str
  pub samples : List (List Str × ℕ)

-- `prometheus.DefBuckets`, or the start, the factor and the count of `ExponentialBuckets`.
pub data Buckets : Type 0 where
  default_buckets : Buckets
  exponential : ℕ → ℕ → ℕ → Buckets

-- The observations of a vector, the last one first.
pub record HistogramVec : Type 0 where
  pub opts : Opts
  pub buckets : Buckets
  pub labels : List Str
  pub observed : List (List Str × ℤ)

abbrev pub new_counter : Opts → Counter
new_counter opts = record { opts = opts; value = 0 }

abbrev pub new_gauge : Opts → Gauge
new_gauge opts = record { opts = opts; value = pos 0 }

abbrev pub new_counter_vec : Opts → List Str → CounterVec
new_counter_vec opts labels = record { opts = opts; labels = labels; samples = [] }

abbrev pub new_histogram_vec : Opts → Buckets → List Str → HistogramVec
new_histogram_vec opts buckets labels = record {
  opts = opts;
  buckets = buckets;
  labels = labels;
  observed = [];
}

-- `◌==◌` on lists of label values.
unfoldable pub same_values : List Str → List Str → Bool
same_values [] [] = true
same_values [] (w ∷ ws) = false
same_values (v ∷ vs) [] = false
same_values (v ∷ vs) (w ∷ ws) = let rest = same_values vs ws in if v == w then rest else false

-- The sample of a list of label values, which is 0 before the first `Inc`.
unfoldable pub sample : List Str → List (List Str × ℕ) → ℕ
sample values [] = 0
sample values ((ws, n) ∷ samples) = if same_values values ws then n else sample values samples

unfoldable pub add_one : List Str → List (List Str × ℕ) → List (List Str × ℕ)
add_one values [] = (values, 1) ∷ []
add_one values ((ws, n) ∷ samples) =
    if same_values values ws then (ws, n + 1) ∷ samples else (ws, n) ∷ add_one values samples

-- What `WithLabelValues` checks: as many values as there are labels, each of them valid UTF-8.
unfoldable pub accepts : List Str → List Str → Bool
accepts values labels = length values == length labels && every valid_string values

-- A panic of `WithLabelValues` is none.
unfoldable pub inc_vec : List Str → CounterVec → Option CounterVec
inc_vec values v =
    if accepts values v.labels then some (record v { samples = add_one values v.samples }) else none

unfoldable pub observe_vec : List Str → ℤ → HistogramVec → Option HistogramVec
observe_vec values x v =
    if accepts values v.labels
    then some (record v { observed = (values, x) ∷ v.observed })
    else none

abbrev pub inc : Counter → Counter
inc c = record c { value = c.value + 1 }

-- `Add`, which panics if the number is negative.
unfoldable pub add : ℤ → Counter → Option Counter
add (pos n) c = some (record c { value = c.value + n })
add (negsuc n) c = none

-- An observation that is made only of a positive number.
unfoldable pub observe_positive : List Str → ℤ → HistogramVec → Option HistogramVec
observe_positive values x v = if ltb_ℤ (pos 0) x then observe_vec values x v else some v
