-- ===== src/Http/Audit.antt =====
-- internal/http/middleware/audit.go
pub mod Lines
use verus_gateway.Base.{
  ◌≡◌, refl, Bool, not, Option, none, some, arith, leb, ◌==◌, nat_eq, if◌then◌else◌, ℕ,
}
use verus_gateway.Base.Bytes.{Str, lit}
use verus_gateway.Base.Int.{ℤ}
use verus_gateway.Domain.Request.{is_empty}
use verus_gateway.Http.Middleware.{
  Request, Writer, Outcome, returned, panicked, Handler, log, processed, unauthorized_access,
  rate_limit_exceeded, server_error,
}

-- The status of a `statusResponseWriter`: that of the last `WriteHeader`, and 200 before any.
unfoldable pub audited_status : Option ℕ → ℕ
audited_status none = 200
audited_status (some status) = status

-- The lines behind the one on the request itself.
unfoldable pub security_events : Request → ℕ → Writer → Writer
security_events r status w =
    let first =
      if status == 401
      then log (unauthorized_access r.path r.remote_addr (r.headers (lit "User-Agent"))) w
      else w in
    let second = if status == 429 then log (rate_limit_exceeded r.remote_addr) first else first in
    if leb 500 status then log (server_error r.path status) second else second

-- `Log`, with the duration of the request; where the next handler panics, nothing is written.
unfoldable pub audit_log : ℤ → Handler → Handler
unfolding audited_status security_events
audit_log duration next r w = elim (next r (record w { last_status = none })) [
  | panicked value w' ↦ panicked value w'
  | returned w' ↦
      let status = audited_status w'.last_status in
      let has_auth = not (is_empty (r.headers (lit "Authorization"))) in
      let has_api_key = not (is_empty (r.headers (lit "X-API-Key"))) in
      returned (
        security_events r status (
          log
            (processed r.method r.path r.remote_addr (r.headers (lit "User-Agent"))
              (r.headers (lit "Referer")) has_auth has_api_key status duration)
            w'))
]
