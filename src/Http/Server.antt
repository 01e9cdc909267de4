-- ===== src/Http/Server.antt =====
-- internal/http/server/server.go. The router of chi is the argument `mux`, which makes a handler of the
-- routes; its handlers for CORS and compression are the arguments `cors` and `compress`.
pub mod Panics
pub mod Served
pub mod Deadline
pub mod Files
use verus_gateway.Base.{
  ℕ, ◌+◌, ◌*◌, ◌^◌, ◌≡◌, refl, Bool, true, false, Option, none, some, List, [], ◌∷◌, ◌++◌, arith,
  if◌then◌else◌,
}
use verus_gateway.Base.Bytes.{Str, lit}
use verus_gateway.Base.Int.{ℤ, pos, negsuc, pos_part, neg_part, sub_ℕ, wrap64, mul64}
use verus_gateway.Base.Decimal.{decimal_ℤ}
use verus_gateway.Config.Settings.{Settings}
use verus_gateway.Http.Middleware.{
  Request, Writer, Outcome, Handler, request_id, logger, recoverer, metrics, security_headers,
  real_ip, timeout,
}

-- The handlers that `setupRoutes` names.
pub data Endpoint : Type 0 where
  health : Endpoint
  ready : Endpoint
  prometheus_metrics : Endpoint
  list_chains : Endpoint
  get_file : Endpoint
  head_file : Endpoint
  get_meta : Endpoint
  get_cache_stats : Endpoint
  clear_cache : Endpoint
  delete_cache_entry : Endpoint

pub record Route : Type 0 where
  pub method : Str
  pub pattern : Str
  pub endpoint : Endpoint

unfoldable pub get_route : Str → Endpoint → Route
get_route pattern e = record { method = lit "GET"; pattern = pattern; endpoint = e }

-- `Route`: the routes below a prefix.
unfoldable pub below : Str → List Route → List Route
below prefix [] = []
below prefix (r ∷ routes) = record r { pattern = prefix ++ r.pattern } ∷ below prefix routes

-- `setupRoutes`
unfoldable pub setup_routes : List Route
unfolding get_route below
setup_routes =
    (get_route (lit "/health") health
      ∷ get_route (lit "/ready") ready
      ∷ get_route (lit "/metrics") prometheus_metrics
      ∷ get_route (lit "/chains") list_chains
      ∷ [])
    ++ (below (lit "/c/{chain}") (
          get_route (lit "/file/{txid}") get_file
          ∷ record { method = lit "HEAD"; pattern = lit "/file/{txid}"; endpoint = head_file }
          ∷ get_route (lit "/meta/{txid}") get_meta
          ∷ [])
        ++ below (lit "/admin") (
            get_route (lit "/cache/stats") get_cache_stats
            ∷ record { method = lit "DELETE"; pattern = lit "/cache"; endpoint = clear_cache }
            ∷ record {
              method = lit "DELETE";
              pattern = lit "/cache/{key}";
              endpoint = delete_cache_entry;
            }
            ∷ []))

-- `time.Duration(d) * time.Second`; `d` is a duration already.
unfoldable pub in_seconds : ℤ → ℤ
unfolding mul64
in_seconds d = mul64 d (pos (10 ^ 9))

-- `http.Server`
pub record HttpServer : Type 0 where
  pub addr : Str
  pub handler : Handler
  pub read_timeout : ℤ
  pub write_timeout : ℤ
  pub idle_timeout : ℤ

-- What is new for each request: an identifier, the time, the duration, and the text of an error on the
-- labels of its metrics.
pub record Arrival : Type 0 where
  pub uuid : Str
  pub now : ℕ
  pub duration : ℤ
  pub label_error : Str

module _ (cors compress : Handler → Handler) where
  -- The middlewares behind the security headers.
  unfoldable pub innermost : Settings → Handler → Handler
  innermost cfg next = if cfg.security.cors.enabled then cors (compress next) else compress next

  -- `setupMiddleware`, the first of the middlewares outermost.
  unfoldable pub setup_middleware : Settings → Bool → Arrival → Handler → Handler
  setup_middleware cfg has_metrics a next =
      let limited =
        timeout a.now (in_seconds cfg.server.read_timeout)
          (security_headers (innermost cfg next)) in
      recoverer (
        request_id a.uuid (
          real_ip
            (logger (if has_metrics then metrics a.label_error a.duration limited else limited))))

  -- `New`
  unfoldable pub new : (List Route → Handler) → Settings → Bool → Arrival → HttpServer
  new mux cfg has_metrics a = record {
    addr = cfg.server.host ++ (lit ":" ++ decimal_ℤ cfg.server.port);
    handler = setup_middleware cfg has_metrics a (mux setup_routes);
    read_timeout = in_seconds cfg.server.read_timeout;
    write_timeout = in_seconds cfg.server.write_timeout;
    idle_timeout = pos (120 * 10 ^ 9);
  }
