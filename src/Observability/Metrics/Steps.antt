-- ===== src/Observability/Metrics/Steps.antt =====
-- What one recording makes of the metrics.
use verus_gateway.Base.{◌≡◌, refl, ap, some, [], ◌∷◌, arith, nat_eq, list_eq, length, every, true}
use verus_gateway.Base.Bytes.{Str, lit}
use verus_gateway.Base.Utf8.{valid_string, follows, following}
use verus_gateway.Base.Int.{ℤ, pos, negsuc}
use verus_gateway.Observability.Metrics.{
  add_one, inc, Metrics, add, record_http_request, record_cache_hit, record_cache_miss,
  update_cache_stats, record_rpc_request, record_rpc_error, record_file_served, record_decryption,
  record_decompression,
}
use verus_gateway.Observability.Metrics.Samples.{
  sample-add_one, inc_vec-some, observe_vec-some, observe_positive-some,
}
use verus_gateway.Observability.Metrics.Recording.{
  Recording, http_request, cache_hit, cache_miss, cache_stats, rpc_request, rpc_error, file_served,
  decryption, decompression, apply, HasLabels, IsAccepted, requests, hits, bytes_served, Tells,
}

module _ (m : Metrics) (h : HasLabels m) where
  pub http_request-Tells :
      (method path status : Str) (d q r : ℤ)
      → every valid_string (method ∷ path ∷ status ∷ []) ≡ true
      → (m' : Metrics) × (record_http_request method path status d q r m ≡ some m')
        × Tells (http_request method path status d q r ∷ []) m m'
  unfolding record_http_request every requests hits bytes_served
  http_request-Tells method path status d q r valid =
      let values = method ∷ path ∷ status ∷ [] in
      let (asked, e, a) =
        observe_positive-some (method ∷ path ∷ []) (ground arith) q m.http_request_size
          h.request_size in
      let (sent, f, b) =
        observe_positive-some values valid r m.http_response_size h.response_size in
      (
        record m {
          http_requests_total = record m.http_requests_total {
            samples = add_one values m.http_requests_total.samples;
          };
          http_request_duration = record m.http_request_duration {
            observed = (values, d) ∷ m.http_request_duration.observed;
          };
          http_request_size = asked;
          http_response_size = sent;
        },
        rw
            (
              inc_vec-some values valid m.http_requests_total h.http_total,
              observe_vec-some values valid d m.http_request_duration h.http_duration,
              e,
              f,
            )
            refl,
        record {
          labels = ground (arith, ap length a, ap length b);
          requests_total =
              λ asked. omega (arith, sample-add_one asked values m.http_requests_total.samples);
          cache_hits = omega arith;
          bytes = omega arith;
        },
      )

  cache_hit-Tells : (m' : Metrics) × (record_cache_hit m ≡ some m') × Tells (cache_hit ∷ []) m m'
  unfolding record_cache_hit every lit valid_string follows following requests hits bytes_served
  cache_hit-Tells = (
    record m {
      cache_hits = inc m.cache_hits;
      cache_operations = record m.cache_operations {
        samples = add_one (lit "get" ∷ lit "hit" ∷ []) m.cache_operations.samples;
      };
    },
    rw (inc_vec-some (lit "get" ∷ lit "hit" ∷ []) refl m.cache_operations h.operations) refl,
    record {
      labels = ground arith;
      requests_total = λ asked. omega arith;
      cache_hits = omega arith;
      bytes = omega arith;
    },
  )

  cache_miss-Tells : (m' : Metrics) × (record_cache_miss m ≡ some m') × Tells (cache_miss ∷ []) m m'
  unfolding record_cache_miss every lit valid_string follows following requests hits bytes_served
  cache_miss-Tells = (
    record m {
      cache_misses = inc m.cache_misses;
      cache_operations = record m.cache_operations {
        samples = add_one (lit "get" ∷ lit "miss" ∷ []) m.cache_operations.samples;
      };
    },
    rw (inc_vec-some (lit "get" ∷ lit "miss" ∷ []) refl m.cache_operations h.operations) refl,
    record {
      labels = ground arith;
      requests_total = λ asked. omega arith;
      cache_hits = omega arith;
      bytes = omega arith;
    },
  )

  rpc_error-Tells :
      (chain method error_type : Str)
      → every valid_string (chain ∷ method ∷ error_type ∷ []) ≡ true
      → (m' : Metrics) × (record_rpc_error chain method error_type m ≡ some m')
        × Tells (rpc_error chain method error_type ∷ []) m m'
  unfolding record_rpc_error requests hits bytes_served
  rpc_error-Tells chain method error_type valid = (
    record m {
      rpc_errors = record m.rpc_errors {
        samples = add_one (chain ∷ method ∷ error_type ∷ []) m.rpc_errors.samples;
      };
    },
    rw (inc_vec-some (chain ∷ method ∷ error_type ∷ []) valid m.rpc_errors h.errors) refl,
    record {
      labels = ground arith;
      requests_total = λ asked. omega arith;
      cache_hits = omega arith;
      bytes = omega arith;
    },
  )

  decryption-Tells :
      (chain status : Str)
      → every valid_string (chain ∷ status ∷ []) ≡ true
      → (m' : Metrics) × (record_decryption chain status m ≡ some m')
        × Tells (decryption chain status ∷ []) m m'
  unfolding record_decryption requests hits bytes_served
  decryption-Tells chain status valid = (
    record m {
      decryptions_total = record m.decryptions_total {
        samples = add_one (chain ∷ status ∷ []) m.decryptions_total.samples;
      };
    },
    rw (inc_vec-some (chain ∷ status ∷ []) valid m.decryptions_total h.decryptions) refl,
    record {
      labels = ground arith;
      requests_total = λ asked. omega arith;
      cache_hits = omega arith;
      bytes = omega arith;
    },
  )

  decompression-Tells :
      (status : Str)
      → every valid_string (status ∷ []) ≡ true
      → (m' : Metrics) × (record_decompression status m ≡ some m')
        × Tells (decompression status ∷ []) m m'
  unfolding record_decompression requests hits bytes_served
  decompression-Tells status valid = (
    record m {
      decompression_total = record m.decompression_total {
        samples = add_one (status ∷ []) m.decompression_total.samples;
      };
    },
    rw (inc_vec-some (status ∷ []) valid m.decompression_total h.decompressions) refl,
    record {
      labels = ground arith;
      requests_total = λ asked. omega arith;
      cache_hits = omega arith;
      bytes = omega arith;
    },
  )

  rpc_request-Tells :
      (chain method status : Str) (d : ℤ)
      → every valid_string (chain ∷ method ∷ status ∷ []) ≡ true
      → (m' : Metrics) × (record_rpc_request chain method status d m ≡ some m')
        × Tells (rpc_request chain method status d ∷ []) m m'
  unfolding record_rpc_request every requests hits bytes_served
  rpc_request-Tells chain method status d valid =
      let values = chain ∷ method ∷ status ∷ [] in
      (
        record m {
          rpc_requests_total = record m.rpc_requests_total {
            samples = add_one values m.rpc_requests_total.samples;
          };
          rpc_request_duration = record m.rpc_request_duration {
            observed = (chain ∷ method ∷ [], d) ∷ m.rpc_request_duration.observed;
          };
        },
        rw
            (
              inc_vec-some values valid m.rpc_requests_total h.rpc_total,
              observe_vec-some (chain ∷ method ∷ []) (ground arith) d m.rpc_request_duration
                  h.rpc_duration,
            )
            refl,
        record {
          labels = ground arith;
          requests_total = λ asked. omega arith;
          cache_hits = omega arith;
          bytes = omega arith;
        },
      )

  pub apply-Tells :
      (r : Recording) → IsAccepted r → (m' : Metrics) × (apply r m ≡ some m') × Tells (r ∷ []) m m'
  unfolding apply update_cache_stats record_file_served add requests hits bytes_served
  apply-Tells (http_request method path status d q r) z =
      http_request-Tells method path status d q r z
  apply-Tells cache_hit z = cache_hit-Tells
  apply-Tells cache_miss z = cache_miss-Tells
  apply-Tells (cache_stats size items) z = (_, refl, ground arith)
  apply-Tells (rpc_request chain method status d) z = rpc_request-Tells chain method status d z
  apply-Tells (rpc_error chain method error_type) z = rpc_error-Tells chain method error_type z
  apply-Tells (file_served (pos n)) z = (_, refl, ground arith)
  apply-Tells (file_served (negsuc n)) z = elim z [ ]
  apply-Tells (decryption chain status) z = decryption-Tells chain status z
  apply-Tells (decompression status) z = decompression-Tells status z
