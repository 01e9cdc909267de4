-- ===== src/Observability/Metrics/Recording.antt =====
-- Sequences of recordings, and what they say of the metrics.
use verus_gateway.Base.{
  ℕ, suc, ◌+◌, ◌≡◌, refl, Option, some, List, [], ◌∷◌, nat_eq, list_eq, length, every, true,
}
use verus_gateway.Base.Bytes.{Str}
use verus_gateway.Base.Utf8.{valid_string}
use verus_gateway.Base.Int.{ℤ, pos, negsuc}
use verus_gateway.Observability.Metrics.{
  Metrics, ◌>>=◌, new, same_values, sample, record_http_request, record_cache_hit,
  record_cache_miss, update_cache_stats, record_rpc_request, record_rpc_error, record_file_served,
  record_decryption, record_decompression,
}
use verus_gateway.Observability.Metrics.Samples.{one_if}

-- A call of one of the methods.
pub data Recording : Type 0 where
  http_request : Str → Str → Str → ℤ → ℤ → ℤ → Recording
  cache_hit : Recording
  cache_miss : Recording
  cache_stats : ℤ → ℤ → Recording
  rpc_request : Str → Str → Str → ℤ → Recording
  rpc_error : Str → Str → Str → Recording
  file_served : ℤ → Recording
  decryption : Str → Str → Recording
  decompression : Str → Recording

unfoldable pub apply : Recording → Metrics → Option Metrics
apply (http_request method path status d q r) m = record_http_request method path status d q r m
apply cache_hit m = record_cache_hit m
apply cache_miss m = record_cache_miss m
apply (cache_stats size items) m = some (update_cache_stats size items m)
apply (rpc_request chain method status d) m = record_rpc_request chain method status d m
apply (rpc_error chain method error_type) m = record_rpc_error chain method error_type m
apply (file_served size) m = record_file_served size m
apply (decryption chain status) m = record_decryption chain status m
apply (decompression status) m = record_decompression status m

unfoldable pub apply_all : List Recording → Metrics → Option Metrics
apply_all [] m = some m
apply_all (r ∷ rs) m = apply r m >>= λ m'. apply_all rs m'

-- Each vector has as many labels as its calls give values.
pub record HasLabels (m : Metrics) : Type 0 where
  pub http_total : 3 ≡ length m.http_requests_total.labels
  pub http_duration : 3 ≡ length m.http_request_duration.labels
  pub request_size : 2 ≡ length m.http_request_size.labels
  pub response_size : 3 ≡ length m.http_response_size.labels
  pub operations : 2 ≡ length m.cache_operations.labels
  pub rpc_total : 3 ≡ length m.rpc_requests_total.labels
  pub rpc_duration : 2 ≡ length m.rpc_request_duration.labels
  pub errors : 3 ≡ length m.rpc_errors.labels
  pub decryptions : 2 ≡ length m.decryptions_total.labels
  pub decompressions : 1 ≡ length m.decompression_total.labels

pub new-HasLabels : (namespace : Str) → HasLabels (new namespace)
unfolding new
new-HasLabels namespace = record {
  http_total = refl;
  http_duration = refl;
  request_size = refl;
  response_size = refl;
  operations = refl;
  rpc_total = refl;
  rpc_duration = refl;
  errors = refl;
  decryptions = refl;
  decompressions = refl;
}

-- The label values are valid UTF-8, and the size of a file is no negative number.
abbrev pub IsAccepted : Recording → Type 0
IsAccepted (http_request method path status d q r) =
    every valid_string (method ∷ path ∷ status ∷ []) ≡ true
IsAccepted cache_hit = Unit
IsAccepted cache_miss = Unit
IsAccepted (cache_stats size items) = Unit
IsAccepted (rpc_request chain method status d) =
    every valid_string (chain ∷ method ∷ status ∷ []) ≡ true
IsAccepted (rpc_error chain method error_type) =
    every valid_string (chain ∷ method ∷ error_type ∷ []) ≡ true
IsAccepted (file_served (pos n)) = Unit
IsAccepted (file_served (negsuc n)) = ⊥
IsAccepted (decryption chain status) = every valid_string (chain ∷ status ∷ []) ≡ true
IsAccepted (decompression status) = every valid_string (status ∷ []) ≡ true

-- How often a sequence records a request under these values, and a hit.
unfoldable pub requests : List Str → List Recording → ℕ
requests values [] = 0
requests values (http_request method path status d q r ∷ rs) =
    one_if (same_values values (method ∷ path ∷ status ∷ [])) + requests values rs
requests values (r ∷ rs) = requests values rs

unfoldable pub hits : List Recording → ℕ
hits [] = 0
hits (cache_hit ∷ rs) = suc (hits rs)
hits (r ∷ rs) = hits rs

unfoldable pub bytes_served : List Recording → ℕ
bytes_served [] = 0
bytes_served (file_served (pos n) ∷ rs) = n + bytes_served rs
bytes_served (r ∷ rs) = bytes_served rs

-- The metrics after some recordings, told by those before and the recordings.
pub record Tells (rs : List Recording) (m m' : Metrics) : Type 0 where
  pub labels : HasLabels m'
  pub requests_total :
      (values : List Str)
      → sample values m'.http_requests_total.samples
        ≡ sample values m.http_requests_total.samples + requests values rs
  pub cache_hits : m'.cache_hits.value ≡ m.cache_hits.value + hits rs
  pub bytes : m'.bytes_transferred.value ≡ m.bytes_transferred.value + bytes_served rs
