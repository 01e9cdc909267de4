-- ===== src/Tests/Serving.antt =====
-- The server's middlewares, the audit and the metrics.
use verus_gateway.Base.{
  ℕ_discrete, ◌+◌, ◌*◌, ◌%◌, ◌^◌, ◌≤◌, ◌<◌, ◌≡◌, ◌⊎◌, ◌↔◌, refl, true, false, some, List, [], ◌∷◌,
  ◌++◌, list_eq, nat_eq,
}
use verus_gateway.Base.Bytes.{Str, lit}
use verus_gateway.Base.Int.{ℤ, pos, ◌≤ℤ◌}
use verus_gateway.Base.Decimal.{decimal}
use verus_gateway.Config.Settings.{set_defaults}
use verus_gateway.Observability.Metrics
use verus_gateway.Observability.Metrics.{Metrics, sample}
use verus_gateway.Observability.Metrics.Recording.{
  http_request, cache_hit, file_served, apply_all, requests, hits, bytes_served, new-HasLabels,
}
use verus_gateway.Observability.Metrics.Counting.{apply_all-Counts}
use verus_gateway.Http.Middleware.{
  Request, Writer, returned, panicked, Handler, get_request_id, info, completed, panic_recovered,
  processed, status_of, level_of, recovered_body, normalize_path, timeout,
}
use verus_gateway.Http.Audit.{audit_log}
use verus_gateway.Http.Audit.Lines.{alarms, audit_log_lem}
use verus_gateway.Http.Server.{in_seconds, innermost, setup_middleware}
use verus_gateway.Http.Server.Panics.{identifier, greeted, inner, setup_middleware-panicked}
use verus_gateway.Http.Server.Served.{
  HasLabelText, setup_middleware-returned, setup_middleware-unlabelled,
}
use verus_gateway.Base.Utf8.{valid_string, follows, following}
use verus_gateway.Http.Server.Deadline.{timeout_past_iff}
use verus_gateway.Tests.Exchanges.{arrival, request, untouched, same}

-- A handler that panics, and one that answers 404.
abbrev broken : Handler
broken r w = panicked (lit "index out of range") w

abbrev refusing : Handler
refusing r w = returned (record w { sent = some (404, w.headers); last_status = some 404 })

abbrev stepped : Writer
stepped = greeted arrival request untouched

broken_panics :
    inner same same set_defaults arrival broken request untouched
    ≡ panicked (lit "index out of range") stepped
unfolding innermost set_defaults
broken_panics = refl

setup_middleware-panicked_example :
    (out : Writer) × (setup_middleware same same set_defaults true arrival broken request untouched
      ≡ returned out)
    × (status_of out ≡ 500)
    × (out.body ≡ [] ++ recovered_body [])
    × (out.log
        ≡ panic_recovered [] (lit "GET") (lit "/chains") (lit "index out of range")
          ∷ completed info (identifier arrival request) 0 0
          ∷ stepped.log)
    × (out.metrics ≡ Metrics.new (lit "gateway"))
setup_middleware-panicked_example =
    setup_middleware-panicked same same set_defaults arrival broken request untouched true
      (lit "index out of range") stepped refl refl broken_panics

abbrev refused : Writer
refused = record stepped { sent = some (404, stepped.headers); last_status = some 404 }

refusing_returns :
    inner same same set_defaults arrival refusing request untouched ≡ returned refused
unfolding innermost set_defaults
refusing_returns = refl

request-HasLabelText : HasLabelText request
unfolding valid_string follows following normalize_path lit
request-HasLabelText = (refl, refl)

setup_middleware-returned_example :
    (out : Writer) × (setup_middleware same same set_defaults true arrival refusing request
        untouched
      ≡ returned out)
    × (out.sent ≡ some (404, stepped.headers))
    × (out.headers ≡ stepped.headers)
    × (out.body ≡ [])
    × (out.log
        ≡ completed
            (level_of (status_of refused))
            (identifier arrival request)
            (status_of refused)
            0
          ∷ stepped.log)
    × ((values : List Str)
        → sample values out.metrics.http_requests_total.samples
          ≡ sample values (Metrics.new (lit "gateway")).http_requests_total.samples
            + requests values (
                http_request
                  (lit "GET")
                  (normalize_path (lit "/chains"))
                  (decimal (status_of refused))
                  (pos 3)
                  (pos 0)
                  (pos 0)
                ∷ []))
setup_middleware-returned_example =
    setup_middleware-returned same same set_defaults arrival refusing request untouched refused
      (new-HasLabels (lit "gateway")) request-HasLabelText refusing_returns

-- The default read time-out.
timeout_past_iff_example :
    let m = (10 * 10 ^ 9 * 10 ^ 9) % 2 ^ 64 in
    (x : ℤ) × (timeout 100 (in_seconds (pos (10 * 10 ^ 9))) broken request untouched
      ≡ broken (record request { deadline = some x }) untouched)
    × ((x ≤ℤ pos 100) ↔ ((m ≡ 0) ⊎ (2 ^ 63 ≤ m)))
    × (m < 2 ^ 63 → x ≡ pos (100 + m))
timeout_past_iff_example = timeout_past_iff 100 (10 * 10 ^ 9) broken request untouched refl

-- A request whose path holds no UTF-8.
abbrev binary : Request
binary = record request { path = b'/' ∷ 0xFF ∷ [] }

valid_string-binary : valid_string (normalize_path binary.path) ≡ false
unfolding valid_string follows following normalize_path ℕ_discrete
valid_string-binary = refl

binary_unlabelled : ¬ HasLabelText binary
binary_unlabelled (v, u) = cc (valid_string-binary, u)

abbrev binary_refused : Writer
binary_refused = record (greeted arrival binary untouched) {
  sent = some (404, (greeted arrival binary untouched).headers);
  last_status = some 404;
}

binary_returns :
    inner same same set_defaults arrival refusing binary untouched ≡ returned binary_refused
unfolding innermost set_defaults
binary_returns = refl

setup_middleware-unlabelled_example :
    (out : Writer) × (setup_middleware same same set_defaults true arrival refusing binary untouched
      ≡ returned out)
    × (out.sent ≡ binary_refused.sent)
    × (out.body ≡ [] ++ recovered_body (get_request_id binary))
    × (out.log
        ≡ panic_recovered (get_request_id binary) (lit "GET") (b'/' ∷ 0xFF ∷ []) arrival.label_error
          ∷ completed
              (level_of (status_of binary_refused))
              (identifier arrival binary)
              (status_of binary_refused)
              0
          ∷ binary_refused.log)
    × (out.metrics ≡ binary_refused.metrics)
setup_middleware-unlabelled_example =
    setup_middleware-unlabelled same same set_defaults arrival refusing binary untouched
      binary_refused (404, (greeted arrival binary untouched).headers) refl binary_unlabelled
      binary_returns

audit_log_lem_example :
    audit_log (pos 3) refusing request untouched
    ≡ returned (record untouched {
      sent = some (404, []);
      last_status = some 404;
      log =
          alarms request 404
          ++ (processed (lit "GET") (lit "/chains") (lit "10.0.0.1") [] [] false false 404 (pos 3)
              ∷ []);
    })
audit_log_lem_example = audit_log_lem (pos 3) refusing request untouched

apply_all-Counts_example :
    (m : Metrics) × (apply_all (cache_hit ∷ file_served (pos 5) ∷ []) (Metrics.new []) ≡ some m)
    × ((method path status : Str)
        → sample (method ∷ path ∷ status ∷ []) m.http_requests_total.samples
          ≡ requests (method ∷ path ∷ status ∷ []) (cache_hit ∷ file_served (pos 5) ∷ []))
    × (m.cache_hits.value ≡ hits (cache_hit ∷ file_served (pos 5) ∷ []))
    × (m.bytes_transferred.value ≡ bytes_served (cache_hit ∷ file_served (pos 5) ∷ []))
apply_all-Counts_example = apply_all-Counts [] (cache_hit ∷ file_served (pos 5) ∷ []) (tt, (tt, tt))
