-- ===== src/Http/Server/Panics.antt =====
-- What a client, the log and the metrics see of a panic below the middlewares.
use verus_gateway.Base.{
  ◌≡◌, refl, Bool, true, false, none, some, [], ◌∷◌, ◌++◌, arith, not, if◌then◌else◌, length,
  nat_eq, list_eq,
}
use verus_gateway.Base.Bytes.{Str, lit}
use verus_gateway.Domain.Request.{is_empty}
use verus_gateway.Config.Settings.{Settings}
use verus_gateway.Http.Middleware.{
  Request, Writer, Outcome, returned, panicked, Handler, info, started, completed, panic_recovered,
  set, send, write_header, write, status_of, get_request_id, request_id, level_of, logger,
  recovered_body, recoverer, metrics, is_https, secured, security_headers, real_ip, with_timeout,
  timeout,
}
use verus_gateway.Http.Server.{Arrival, in_seconds, innermost, setup_middleware}

module _ (a : Arrival) (r : Request) where
  abbrev pub identifier : Str
  identifier =
      if is_empty (r.headers (lit "X-Request-ID")) then a.uuid else r.headers (lit "X-Request-ID")

  abbrev pub address : Str
  address =
      if not (is_empty (r.headers (lit "X-Forwarded-For")))
      then r.headers (lit "X-Forwarded-For")
      else if not (is_empty (r.headers (lit "X-Real-IP")))
      then r.headers (lit "X-Real-IP")
      else r.remote_addr

  -- The request and the response that come behind the security headers.
  abbrev pub arrived : Settings → Request
  arrived cfg = record r {
    request_id = some identifier;
    remote_addr = address;
    deadline = with_timeout a.now (in_seconds cfg.server.read_timeout) r.deadline;
  }

  abbrev pub greeted : Writer → Writer
  greeted w = record w {
    headers = secured (is_https r) (set (lit "X-Request-ID") identifier w.headers);
    log = started identifier r.method r.path address ∷ w.log;
  }

module _ (cors compress : Handler → Handler) (cfg : Settings) (a : Arrival) (next : Handler)
    (r : Request) (w : Writer) where
  abbrev pub inner : Outcome
  inner = innermost cors compress cfg next (arrived a r cfg) (greeted a r w)

  -- The response to a panic.
  abbrev panicked_response : Str → Writer → Writer
  panicked_response value w' =
      let headers = set (lit "Content-Type") (lit "application/json") w'.headers in
      record w' {
        headers = headers;
        sent = some (500, headers);
        last_status = some 500;
        body = w'.body ++ recovered_body [];
        log =
            panic_recovered [] r.method r.path value
            ∷ completed info (identifier a r) 0 (length w'.body)
            ∷ w'.log;
      }

  -- After a panic that comes before anything is sent, the client gets status 500 and a body whose
  -- request ID is empty, although the request has one: the line on the panic has none either. The
  -- line on the request has status 0 and the level of a success, and no metric is recorded.
  pub setup_middleware-panicked :
      (has_metrics : Bool) (value : Str) (w' : Writer)
      → r.request_id ≡ none
      → w'.sent ≡ none
      → inner ≡ panicked value w'
      → (out : Writer) × (setup_middleware cors compress cfg has_metrics a next r w ≡ returned out)
        × (status_of out ≡ 500)
        × (out.body ≡ w'.body ++ recovered_body [])
        × (out.log
            ≡ panic_recovered [] r.method r.path value
              ∷ completed info (identifier a r) 0 (length w'.body)
              ∷ w'.log)
        × (out.metrics ≡ w'.metrics)
  unfolding setup_middleware recoverer request_id real_ip logger metrics timeout security_headers
      get_request_id status_of level_of write write_header send
  setup_middleware-panicked true value w' fresh unsent h =
      (panicked_response value w', ground arith, refl, refl, refl, refl)
  setup_middleware-panicked false value w' fresh unsent h =
      (panicked_response value w', ground arith, refl, refl, refl, refl)
