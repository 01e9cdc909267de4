-- ===== src/Http/Server/Served.antt =====
-- What the middlewares add to a response.
use verus_gateway.Base.{
  ◌+◌, ◌≤◌, ◌<◌, ◌≡◌, ℕ, ◌⊎◌, refl, true, inl, inr, none, some, every, Bool-cases, List, [], ◌∷◌,
  ◌++◌, arith, length-append, length-take, length, nat_eq, list_eq, take,
}
use verus_gateway.Base.Bytes.{Str, lit}
use verus_gateway.Base.Int.{ℤ, pos}
use verus_gateway.Base.Utf8.{valid_string, decimal-valid_string}
use verus_gateway.Base.Decimal.{decimal}
use verus_gateway.Config.Settings.{Settings}
use verus_gateway.Http.Middleware.{
  Request, Writer, returned, Handler, LogEvent, panic_recovered, recovered_body, set, send, write,
  write_header, completed, status_of, get_request_id, request_id, level_of, logger, recoverer,
  metrics, security_headers, real_ip, timeout, normalize_path,
}
use verus_gateway.Http.Server.{Arrival, setup_middleware}
use verus_gateway.Http.Server.Panics.{identifier, inner}
use verus_gateway.Observability.Metrics.{Metrics, record_http_request, sample, inc_vec, accepts}
use verus_gateway.Observability.Metrics.Recording.{HasLabels, requests, http_request}
use verus_gateway.Observability.Metrics.Steps.{http_request-Tells}

-- The label values of the metrics of a request are valid UTF-8.
abbrev pub HasLabelText : Request → Type 0
HasLabelText r = (valid_string r.method ≡ true) × (valid_string (normalize_path r.path) ≡ true)

pub HasLabelText-cases : (r : Request) → HasLabelText r ⊎ (¬ HasLabelText r)
HasLabelText-cases r = elim (Bool-cases (valid_string r.method)) [
  | inr v ↦ inr (λ (p, q). cc (p, v))
  | inl v ↦ elim (Bool-cases (valid_string (normalize_path r.path))) [
    | inr u ↦ inr (λ (p, q). cc (q, u))
    | inl u ↦ inl (v, u)
  ]
]

module _ (cors compress : Handler → Handler) (cfg : Settings) (a : Arrival) (next : Handler)
    (r : Request) (w : Writer) where
  abbrev line : Writer → LogEvent
  line w' = completed (level_of (status_of w')) (identifier a r) (status_of w') (length w'.body)

  setup_middleware-recorded :
      (w' : Writer) (m : Metrics)
      → inner cors compress cfg a next r w ≡ returned w'
      → record_http_request r.method
          (normalize_path r.path)
          (decimal (status_of w'))
          a.duration
          r.content_length
          (pos (length w'.body))
          w'.metrics
        ≡ some m
      → setup_middleware cors compress cfg true a next r w
        ≡ returned (record w' { metrics = m; log = line w' ∷ w'.log })
  unfolding setup_middleware recoverer request_id real_ip logger metrics timeout security_headers
      get_request_id status_of
  setup_middleware-recorded w' m h e = ground arith

  -- A response that the handlers below return reaches the client as it is, where the method and the
  -- normalised path are valid UTF-8. The log gets one line, with the request's identifier, the
  -- status, the level of that status and the number of bytes, and the counter of requests rises by
  -- one under the method, the normalised path and the status alone.
  pub setup_middleware-returned :
      (w' : Writer)
      → HasLabels w'.metrics
      → HasLabelText r
      → inner cors compress cfg a next r w ≡ returned w'
      → (out : Writer) × (setup_middleware cors compress cfg true a next r w ≡ returned out)
        × (out.sent ≡ w'.sent)
        × (out.headers ≡ w'.headers)
        × (out.body ≡ w'.body)
        × (out.log
            ≡ completed (level_of (status_of w')) (identifier a r) (status_of w') (length w'.body)
              ∷ w'.log)
        × ((values : List Str)
            → sample values out.metrics.http_requests_total.samples
              ≡ sample values w'.metrics.http_requests_total.samples
                + requests values (
                    http_request r.method
                      (normalize_path r.path)
                      (decimal (status_of w'))
                      a.duration
                      r.content_length
                      (pos (length w'.body))
                    ∷ []))
  unfolding every
  setup_middleware-returned w' labels (v, u) h =
      let values = r.method ∷ normalize_path r.path ∷ decimal (status_of w') ∷ [] in
      let valid : every valid_string values ≡ true =
        ground (arith, decimal-valid_string (status_of w')) in
      let (m, e, t) =
        http_request-Tells w'.metrics labels r.method (normalize_path r.path)
          (decimal (status_of w')) a.duration r.content_length (pos (length w'.body)) valid in
      (_, setup_middleware-recorded w' m h e, refl, refl, refl, refl, t.requests_total)

  unlabelled :
      (status : Str) (q p : ℤ) (m : Metrics)
      → (¬ HasLabelText r)
      → record_http_request r.method (normalize_path r.path) status a.duration q p m ≡ none
  unfolding record_http_request inc_vec accepts every
  unlabelled status q p m n = elim (Bool-cases (valid_string r.method)) [
    | inr v ↦ ground (arith, v)
    | inl v ↦ elim (Bool-cases (valid_string (normalize_path r.path))) [
      | inr u ↦ ground (arith, v, u)
      | inl u ↦ absurd (n (v, u))
    ]
  ]

  -- Where the method or the normalised path is no valid UTF-8, a response that the handlers below sent
  -- with some status keeps it, but the JSON object of an internal error is written behind its body,
  -- with the request ID that the request had before the middlewares. The log gets a line on the
  -- panic behind that on the request, and no metric is recorded.
  pub setup_middleware-unlabelled :
      (w' : Writer) (first : ℕ × List (Str × Str))
      → w'.sent ≡ some first
      → (¬ HasLabelText r)
      → inner cors compress cfg a next r w ≡ returned w'
      → (out : Writer) × (setup_middleware cors compress cfg true a next r w ≡ returned out)
        × (out.sent ≡ w'.sent)
        × (out.body ≡ w'.body ++ recovered_body (get_request_id r))
        × (out.log
            ≡ panic_recovered (get_request_id r) r.method r.path a.label_error ∷ line w' ∷ w'.log)
        × (out.metrics ≡ w'.metrics)
  unfolding setup_middleware recoverer request_id real_ip logger metrics timeout security_headers
      get_request_id status_of write write_header send
  setup_middleware-unlabelled w' first sent n h =
      let e =
        unlabelled (decimal (status_of w')) r.content_length (pos (length w'.body)) w'.metrics n in
      (
        record w' {
          headers = set (lit "Content-Type") (lit "application/json") w'.headers;
          last_status = some 500;
          body = w'.body ++ recovered_body (get_request_id r);
          log = panic_recovered (get_request_id r) r.method r.path a.label_error ∷ line w' ∷ w'.log;
        },
        ground (arith, e),
        refl,
        refl,
        refl,
        refl,
      )

-- The path of a metric has 64 bytes at most; a path of up to 64 bytes is left as it is, and a longer
-- one keeps 32 bytes.
pub normalize_path_lem :
    (path : Str)
    → (length (normalize_path path) ≤ 64)
      × (length path ≤ 64 → normalize_path path ≡ path)
      × (64 < length path → normalize_path path ≡ take 32 path ++ lit "...")
unfolding normalize_path lit
normalize_path_lem path =
    ground (arith, length-append (take 32 path) (lit "..."), length-take 32 path)
