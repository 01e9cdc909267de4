-- ===== src/Observability/Metrics/Counting.antt =====
-- Sequences of recordings, and what the counters tell.
use verus_gateway.Base.{◌+◌, ◌≡◌, refl, some, List, [], ◌∷◌, arith, nat_eq, list_eq, All}
use verus_gateway.Base.Bytes.{Str}
use verus_gateway.Base.Int.{pos}
use verus_gateway.Observability.Metrics.{Metrics, new, sample}
use verus_gateway.Observability.Metrics.Recording.{
  Recording, http_request, cache_hit, file_served, apply_all, HasLabels, new-HasLabels, IsAccepted,
  requests, hits, bytes_served, Tells,
}
use verus_gateway.Observability.Metrics.Steps.{apply-Tells}

-- The counts of a sequence are those of its first recording and the rest.
counts-cons :
    (r : Recording) (rs : List Recording)
    → ((values : List Str)
        → requests values (r ∷ rs) ≡ requests values (r ∷ []) + requests values rs)
      × (hits (r ∷ rs) ≡ hits (r ∷ []) + hits rs)
      × (bytes_served (r ∷ rs) ≡ bytes_served (r ∷ []) + bytes_served rs)
unfolding requests hits bytes_served
counts-cons (http_request method path status d q r) rs =
    (λ values. omega arith, omega arith, omega arith)
counts-cons cache_hit rs = (λ values. omega arith, omega arith, omega arith)
counts-cons (file_served (pos n)) rs = (λ values. omega arith, omega arith, omega arith)
counts-cons _ rs = (λ values. omega arith, omega arith, omega arith)

nothing-Tells : (m : Metrics) → HasLabels m → Tells [] m m
unfolding requests hits bytes_served
nothing-Tells m h = record {
  labels = h;
  requests_total = λ values. omega arith;
  cache_hits = omega arith;
  bytes = omega arith;
}

apply_all-Tells :
    (rs : List Recording) (m : Metrics)
    → All IsAccepted rs
    → HasLabels m
    → (m' : Metrics) × (apply_all rs m ≡ some m') × Tells rs m m'
unfolding apply_all
apply_all-Tells [] m z h = (m, refl, nothing-Tells m h)
apply_all-Tells (r ∷ rs) m (z, zs) h =
    let (m1, e, t) = apply-Tells m h r z in
    let (m2, f, u) = apply_all-Tells rs m1 zs t.labels in
    let (c, k, b) = counts-cons r rs in
    (
      m2,
      rw e f,
      record {
        labels = u.labels;
        requests_total =
            λ values. omega (arith, c values, t.requests_total values, u.requests_total values);
        cache_hits = omega (arith, k, t.cache_hits, u.cache_hits);
        bytes = omega (arith, b, t.bytes, u.bytes);
      },
    )

-- However the methods are called one after the other on new metrics, with label values that are valid
-- UTF-8 and no negative size of a file, no call panics. Afterwards the counter of requests holds under
-- each method, path and status how often such a request was recorded, the counter of hits how many
-- were, and that of the bytes their sum.
pub apply_all-Counts :
    (namespace : Str) (rs : List Recording)
    → All IsAccepted rs
    → (m : Metrics) × (apply_all rs (new namespace) ≡ some m)
      × ((method path status : Str)
          → sample (method ∷ path ∷ status ∷ []) m.http_requests_total.samples
            ≡ requests (method ∷ path ∷ status ∷ []) rs)
      × (m.cache_hits.value ≡ hits rs)
      × (m.bytes_transferred.value ≡ bytes_served rs)
unfolding new sample
apply_all-Counts namespace rs z =
    let (m, e, t) = apply_all-Tells rs (new namespace) z (new-HasLabels namespace) in
    (
      m,
      e,
      λ method path status. omega (arith, t.requests_total (method ∷ path ∷ status ∷ [])),
      omega (arith, t.cache_hits),
      omega (arith, t.bytes),
    )
