-- ===== src/Http/Middleware.antt =====
-- internal/http/middleware: middleware.go, sizelimit.go and audit.go. A handler reads a request and goes
-- on with a response, its log and its metrics; it returns, or it panics with a value.
pub mod Headers
use mathlib.Core.List.{lookup}
use verus_gateway.Base.{
  ℕ, zero, suc, ◌+◌, ◌≡◌, refl, Bool, true, false, not, ◌||◌, Option, none, some, List, [], ◌∷◌,
  ◌++◌, arith, ltb, leb, ◌==◌, nat_eq, list_eq, if◌then◌else◌, length, take,
}
use verus_gateway.Base.Bytes.{Bytes, Str, lit}
use verus_gateway.Base.Int.{ℤ, pos, ◌+ℤ◌, leb_ℤ, ltb_ℤ}
use verus_gateway.Base.Decimal.{decimal}
use verus_gateway.Domain.Request.{is_empty}
use verus_gateway.Observability.Metrics.{Metrics, record_http_request}

-- `headers` is `Header.Get`; `request_id` and `deadline` are what the context holds, and `body_limits`
-- the readers of `http.MaxBytesReader` around the body.
pub record Request : Type 0 where
  pub method : Str
  pub path : Str
  pub request_uri : Str
  pub remote_addr : Str
  pub content_length : ℤ
  pub tls : Bool
  pub headers : Str → Str
  pub request_id : Option Str
  pub deadline : Option ℤ
  pub body_limits : List ℤ

pub data Level : Type 0 where
  info : Level
  warn : Level
  error : Level

-- The fields of a line, in the order of the source. A line of `completed` has its status and the number
-- of bytes, one of `panic_recovered` the value of the panic.
pub data LogEvent : Type 0 where
  started : Str → Str → Str → Str → LogEvent
  completed : Level → Str → ℕ → ℕ → LogEvent
  panic_recovered : Str → Str → Str → Str → LogEvent
  processed : Str → Str → Str → Str → Str → Bool → Bool → ℕ → ℤ → LogEvent
  unauthorized_access : Str → Str → Str → LogEvent
  rate_limit_exceeded : Str → LogEvent
  server_error : Str → ℕ → LogEvent

-- `sent` is the status and the headers that went out, and `last_status` the last that `WriteHeader` was
-- called with. The log has its last line first.
pub record Writer : Type 0 where
  pub headers : List (Str × Str)
  pub sent : Option (ℕ × List (Str × Str))
  pub last_status : Option ℕ
  pub body : Bytes
  pub log : List LogEvent
  pub metrics : Metrics

pub data Outcome : Type 0 where
  returned : Writer → Outcome
  panicked : Str → Writer → Outcome

abbrev pub Handler : Type 0
Handler = Request → Writer → Outcome

-- `Header().Set`
unfoldable pub set : Str → Str → List (Str × Str) → List (Str × Str)
set key value [] = (key, value) ∷ []
set key value ((k, v) ∷ headers) =
    if k == key then (k, value) ∷ headers else (k, v) ∷ set key value headers

unfoldable pub value_of : Str → List (Str × Str) → Option Str
unfolding lookup
value_of = lookup list_eq.dec

abbrev pub set_header : Str → Str → Writer → Writer
set_header key value w = record w { headers = set key value w.headers }

-- The status line and the headers go out once.
unfoldable pub send : ℕ → Writer → Writer
send status w = elim w.sent [ none ↦ record w { sent = some (status, w.headers) } | some first ↦ w ]

unfoldable pub write_header : ℕ → Writer → Writer
unfolding send
write_header status w = record (send status w) { last_status = some status }

unfoldable pub write : Bytes → Writer → Writer
unfolding send
write bytes w = let w' = send 200 w in record w' { body = w'.body ++ bytes }

-- `Status` of a wrapped writer, which is 0 as long as nothing went out.
unfoldable pub status_of : Writer → ℕ
status_of w = elim w.sent [ none ↦ 0 | some (status, headers) ↦ status ]

abbrev pub log : LogEvent → Writer → Writer
log event w = record w { log = event ∷ w.log }

-- `GetRequestID`
unfoldable pub get_request_id : Request → Str
get_request_id r = elim r.request_id [ none ↦ [] | some id ↦ id ]

-- `RequestID`, with the identifier that `uuid.New` gives.
unfoldable pub request_id : Str → Handler → Handler
request_id uuid next r w =
    let given = r.headers (lit "X-Request-ID") in
    let id = if is_empty given then uuid else given in
    next (record r { request_id = some id }) (set_header (lit "X-Request-ID") id w)

-- The level of the line on a completed request.
unfoldable pub level_of : ℕ → Level
level_of status = if leb 500 status then error else if leb 400 status then warn else info

abbrev log_completed : Request → Writer → Writer
log_completed r w =
    log (completed (level_of (status_of w)) (get_request_id r) (status_of w) (length w.body)) w

-- `Logger`; the deferred function runs on a panic too.
unfoldable pub logger : Handler → Handler
logger next r w = elim (next r (log (started (get_request_id r) r.method r.path r.remote_addr) w)) [
  | returned w' ↦ returned (log_completed r w')
  | panicked value w' ↦ panicked value (log_completed r w')
]

unfoldable pub recovered_body : Str → Bytes
recovered_body id =
    lit "{\"error\":\"internal_server_error\",\"message\":\"An internal error occurred\","
    ++ (lit "\"request_id\":\"" ++ (id ++ lit "\"}"))

-- `Recoverer`
unfoldable pub recoverer : Handler → Handler
recoverer next r w = elim (next r w) [
  | returned w' ↦ returned w'
  | panicked value w' ↦
      let id = get_request_id r in
      let logged = log (panic_recovered id r.method r.path value) w' in
      returned (
        write (recovered_body id)
          (write_header 500 (set_header (lit "Content-Type") (lit "application/json") logged)))
]

-- `normalizePath`
unfoldable pub normalize_path : Str → Str
normalize_path path =
    if ltb 50 (length path)
    then (if ltb 64 (length path) then take 32 path ++ lit "..." else path)
    else path

-- `Metrics`, with the duration of the request, and the text of the error that `WithLabelValues` panics
-- with where it does.
unfoldable pub metrics : Str → ℤ → Handler → Handler
metrics label_error duration next r w = elim (next r w) [
  | panicked value w' ↦ panicked value w'
  | returned w' ↦
      elim (record_http_request r.method (normalize_path r.path) (decimal (status_of w')) duration
        r.content_length (pos (length w'.body)) w'.metrics) [
          | none ↦ panicked label_error w'
          | some m ↦ returned (record w' { metrics = m })
        ]
]

abbrev pub is_https : Request → Bool
is_https r = r.tls || r.headers (lit "X-Forwarded-Proto") == lit "https"

unfoldable pub secured : Bool → List (Str × Str) → List (Str × Str)
secured https headers =
    let common = set (lit "Permissions-Policy") (lit "geolocation=(), microphone=(), camera=()") (
      set (lit "Content-Security-Policy") (lit "default-src 'none'; frame-ancestors 'none'") (
        set (lit "Referrer-Policy") (lit "strict-origin-when-cross-origin") (
          set (lit "X-XSS-Protection") (lit "1; mode=block") (
            set (lit "X-Frame-Options") (lit "DENY")
              (set (lit "X-Content-Type-Options") (lit "nosniff") headers))))) in
    if https
    then set (lit "Strict-Transport-Security") (lit "max-age=31536000; includeSubDomains; preload")
        common
    else common

-- `SecurityHeaders`
unfoldable pub security_headers : Handler → Handler
security_headers next r w = next r (record w { headers = secured (is_https r) w.headers })

-- `RealIP`
unfoldable pub real_ip : Handler → Handler
real_ip next r w =
    let xff = r.headers (lit "X-Forwarded-For") in
    let xrip = r.headers (lit "X-Real-IP") in
    next
      (record r {
        remote_addr =
            if not (is_empty xff) then xff else if not (is_empty xrip) then xrip else r.remote_addr;
      })
      w

-- `context.WithTimeout` at a time: the earlier of two deadlines stands.
unfoldable pub with_timeout : ℕ → ℤ → Option ℤ → Option ℤ
with_timeout now duration none = some (pos now +ℤ duration)
with_timeout now duration (some parent) =
    if ltb_ℤ parent (pos now +ℤ duration) then some parent else some (pos now +ℤ duration)

-- `Timeout`
unfoldable pub timeout : ℕ → ℤ → Handler → Handler
timeout now duration next r w =
    next (record r { deadline = with_timeout now duration r.deadline }) w

-- `MaxBodySize`
unfoldable pub max_body_size : ℤ → Handler → Handler
max_body_size max_bytes next r w = next (record r { body_limits = max_bytes ∷ r.body_limits }) w

unfoldable pub uri_too_long : Bytes
uri_too_long = lit "{\"error\":\"URI_TOO_LONG\",\"message\":\"Request URI too long\"}"

-- `MaxURILength`
unfoldable pub max_uri_length : ℤ → Handler → Handler
max_uri_length max_length next r w =
    if ltb_ℤ max_length (pos (length r.request_uri))
    then returned (
        write uri_too_long
          (write_header 414 (set_header (lit "Content-Type") (lit "application/json") w)))
    else next r w
