-- ===== src/Observability/Metrics.antt =====
-- internal/observability/metrics/metrics.go.
pub mod Samples
pub mod Recording
pub mod Steps
pub mod Counting
use verus_gateway.Base.{
  ℕ, zero, suc, ◌+◌, ◌≡◌, refl, Bool, true, false, Option, none, some, List, [], ◌∷◌, ◌++◌, arith,
  ◌==◌, nat_eq, list_eq, if◌then◌else◌, length,
}
use verus_gateway.Base.Bytes.{Str, lit}
use verus_gateway.Base.Int.{ℤ, pos, negsuc, ltb_ℤ}
use verus_gateway.Domain.Request.{is_empty}
pub use verus_gateway.Observability.Collectors.{
  Opts, Counter, Gauge, CounterVec, Buckets, default_buckets, exponential, HistogramVec,
  new_counter, new_gauge, new_counter_vec, new_histogram_vec, inc,
}
unfoldable pub use verus_gateway.Observability.Collectors.{
  same_values, sample, add_one, accepts, inc_vec, observe_vec, add, observe_positive,
}

pub record Metrics : Type 0 where
  pub http_requests_total : CounterVec
  pub http_request_duration : HistogramVec
  pub http_request_size : HistogramVec
  pub http_response_size : HistogramVec
  pub cache_hits : Counter
  pub cache_misses : Counter
  pub cache_size : Gauge
  pub cache_items : Gauge
  pub cache_operations : CounterVec
  pub rpc_requests_total : CounterVec
  pub rpc_request_duration : HistogramVec
  pub rpc_errors : CounterVec
  pub files_served : Counter
  pub bytes_transferred : Counter
  pub decryptions_total : CounterVec
  pub decompression_total : CounterVec

unfoldable pub or_gateway : Str → Str
or_gateway namespace = if is_empty namespace then lit "verus_gateway" else namespace

unfoldable pub new : Str → Metrics
new given =
    let namespace = or_gateway given in
    let method = lit "method" in
    let path = lit "path" in
    let status = lit "status" in
    let chain = lit "chain" in
    let opts : Str → Str → Opts =
      λ name help. record { namespace = namespace; name = name; help = help } in
    let sizes = exponential 100 10 8 in
    record {
      http_requests_total =
          new_counter_vec (opts (lit "http_requests_total") (lit "Total number of HTTP requests"))
            (method ∷ path ∷ status ∷ []);
      http_request_duration =
          new_histogram_vec
            (opts (lit "http_request_duration_seconds") (lit "HTTP request latency in seconds"))
            default_buckets (method ∷ path ∷ status ∷ []);
      http_request_size =
          new_histogram_vec
            (opts (lit "http_request_size_bytes") (lit "HTTP request size in bytes")) sizes
            (method ∷ path ∷ []);
      http_response_size =
          new_histogram_vec
            (opts (lit "http_response_size_bytes") (lit "HTTP response size in bytes")) sizes
            (method ∷ path ∷ status ∷ []);
      cache_hits = new_counter (opts (lit "cache_hits_total") (lit "Total number of cache hits"));
      cache_misses =
          new_counter (opts (lit "cache_misses_total") (lit "Total number of cache misses"));
      cache_size = new_gauge (opts (lit "cache_size_bytes") (lit "Current cache size in bytes"));
      cache_items = new_gauge (opts (lit "cache_items") (lit "Current number of items in cache"));
      cache_operations =
          new_counter_vec
            (opts (lit "cache_operations_total") (lit "Total number of cache operations"))
            (lit "operation" ∷ status ∷ []);
      rpc_requests_total =
          new_counter_vec (opts (lit "rpc_requests_total") (lit "Total number of RPC requests"))
            (chain ∷ method ∷ status ∷ []);
      rpc_request_duration =
          new_histogram_vec
            (opts (lit "rpc_request_duration_seconds") (lit "RPC request latency in seconds"))
            default_buckets (chain ∷ method ∷ []);
      rpc_errors =
          new_counter_vec (opts (lit "rpc_errors_total") (lit "Total number of RPC errors"))
            (chain ∷ method ∷ lit "error_type" ∷ []);
      files_served =
          new_counter (opts (lit "files_served_total") (lit "Total number of files served"));
      bytes_transferred =
          new_counter
            (opts (lit "bytes_transferred_total") (lit "Total number of bytes transferred"));
      decryptions_total =
          new_counter_vec
            (opts (lit "decryptions_total") (lit "Total number of decryption operations"))
            (chain ∷ status ∷ []);
      decompression_total =
          new_counter_vec
            (opts (lit "decompressions_total") (lit "Total number of decompression operations"))
            (status ∷ []);
    }

infixl 5 ◌>>=◌
abbrev pub ◌>>=◌ {ℓ κ} : {A : Type ℓ} {B : Type κ} → Option A → (A → Option B) → Option B
none >>= f = none
some a >>= f = f a

unfoldable pub record_http_request : Str → Str → Str → ℤ → ℤ → ℤ → Metrics → Option Metrics
record_http_request method path status duration request_size response_size m = do
  total ← inc_vec (method ∷ path ∷ status ∷ []) m.http_requests_total
  latency ← observe_vec (method ∷ path ∷ status ∷ []) duration m.http_request_duration
  asked ← observe_positive (method ∷ path ∷ []) request_size m.http_request_size
  sent ← observe_positive (method ∷ path ∷ status ∷ []) response_size m.http_response_size
  some (record m {
    http_requests_total = total;
    http_request_duration = latency;
    http_request_size = asked;
    http_response_size = sent;
  })

unfoldable pub record_cache_hit : Metrics → Option Metrics
record_cache_hit m = do
  operations ← inc_vec (lit "get" ∷ lit "hit" ∷ []) m.cache_operations
  some (record m { cache_hits = inc m.cache_hits; cache_operations = operations })

unfoldable pub record_cache_miss : Metrics → Option Metrics
record_cache_miss m = do
  operations ← inc_vec (lit "get" ∷ lit "miss" ∷ []) m.cache_operations
  some (record m { cache_misses = inc m.cache_misses; cache_operations = operations })

unfoldable pub update_cache_stats : ℤ → ℤ → Metrics → Metrics
update_cache_stats size_bytes items m = record m {
  cache_size = record m.cache_size { value = size_bytes };
  cache_items = record m.cache_items { value = items };
}

unfoldable pub record_rpc_request : Str → Str → Str → ℤ → Metrics → Option Metrics
record_rpc_request chain method status duration m = do
  total ← inc_vec (chain ∷ method ∷ status ∷ []) m.rpc_requests_total
  latency ← observe_vec (chain ∷ method ∷ []) duration m.rpc_request_duration
  some (record m { rpc_requests_total = total; rpc_request_duration = latency })

unfoldable pub record_rpc_error : Str → Str → Str → Metrics → Option Metrics
record_rpc_error chain method error_type m = do
  errors ← inc_vec (chain ∷ method ∷ error_type ∷ []) m.rpc_errors
  some (record m { rpc_errors = errors })

unfoldable pub record_file_served : ℤ → Metrics → Option Metrics
record_file_served size_bytes m = do
  bytes ← add size_bytes m.bytes_transferred
  some (record m { files_served = inc m.files_served; bytes_transferred = bytes })

unfoldable pub record_decryption : Str → Str → Metrics → Option Metrics
record_decryption chain status m = do
  total ← inc_vec (chain ∷ status ∷ []) m.decryptions_total
  some (record m { decryptions_total = total })

unfoldable pub record_decompression : Str → Metrics → Option Metrics
record_decompression status m = do
  total ← inc_vec (status ∷ []) m.decompression_total
  some (record m { decompression_total = total })
