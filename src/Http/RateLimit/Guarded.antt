-- ===== src/Http/RateLimit/Guarded.antt =====
-- The middleware of internal/http/middleware/ratelimit.go as a function from handlers to handlers, with the
-- limiter as state.
use verus_gateway.Base.{
  ℕ, ◌^◌, ◌≡◌, refl, ap, true, false, none, some, List, ◌++◌, nat_eq, list_eq, ℕ_discrete, list_dec,
  if◌then◌else◌,
}
use verus_gateway.Base.Bytes.{Bytes, Str, lit}
use verus_gateway.Base.Int.{ℤ, pos, div64}
use verus_gateway.Base.Decimal.{decimal_ℤ}
use verus_gateway.Http.Middleware.{
  Request, Writer, Outcome, returned, Handler, set, value_of, set_header, write_header, write,
}
use verus_gateway.Http.Middleware.Headers.{value_of-set, write-write_header}
use verus_gateway.Http.RateLimit.{RateLimiter, Sender, allow, get_client_ip, rate_limit}

unfoldable pub too_many : Bytes
too_many =
    lit
      "{\"error\":\"RATE_LIMIT_EXCEEDED\",\"message\":\"Rate limit exceeded. Please try again later.\"}"

unfoldable pub sender_of : Request → Sender
sender_of r = record {
  forwarded_for = r.headers (lit "X-Forwarded-For");
  real_ip = r.headers (lit "X-Real-IP");
  remote_addr = r.remote_addr;
}

-- The refusal; `int(window.Seconds())` drops the fraction of a second.
unfoldable pub refuse_exceeded : ℤ → Writer → Writer
refuse_exceeded window w = write too_many (
    write_header 429 (
      set_header (lit "Retry-After") (decimal_ℤ (div64 window (pos (10 ^ 9))))
        (set_header (lit "Content-Type") (lit "application/json") w)))

-- `RateLimit`: the limiter after it, and the outcome.
unfoldable pub limit : ℕ → Handler → Request → Writer → RateLimiter → RateLimiter × Outcome
limit now next r w rl =
    let (rl', allowed) = rate_limit now (sender_of r) rl in
    (rl', if allowed then next r w else returned (refuse_exceeded rl.window w))

-- A response with status 429 that tells when to come back.
pub record IsExceeded (window : ℤ) (before out : Writer) : Type 0 where
  pub headers : List (Str × Str)
  pub sent : out.sent ≡ some (429, headers)
  pub retry : value_of (lit "Retry-After") headers ≡ some (decimal_ℤ (div64 window (pos (10 ^ 9))))
  pub body : out.body ≡ before.body ++ too_many

refuse_exceeded-IsExceeded :
    (window : ℤ) (w : Writer) → w.sent ≡ none → IsExceeded window w (refuse_exceeded window w)
unfolding refuse_exceeded lit list_dec ℕ_discrete
refuse_exceeded-IsExceeded window w unsent =
    let headers =
      set (lit "Retry-After") (decimal_ℤ (div64 window (pos (10 ^ 9))))
        (set (lit "Content-Type") (lit "application/json") w.headers) in
    let written = write-write_header too_many 429 (record w { headers = headers }) unsent in
    record {
      headers = headers;
      sent = ap (λ x. x.sent) written;
      retry = simp value_of-set;
      body = ap (λ x. x.body) written;
    }

-- The limiter after a request is that of its sender's turn, whatever the handler does. The next handler
-- gets the request exactly if the limiter allows it; otherwise the response is the same for all
-- handlers, with status 429 and the length of the window in seconds.
pub limit-allow :
    (now : ℕ) (r : Request) (w : Writer) (rl : RateLimiter)
    → w.sent ≡ none
    → let turn = allow now (get_client_ip (sender_of r)) rl in
      ((next : Handler) → (limit now next r w rl).0 ≡ turn.0)
      × (turn.1 ≡ true → (next : Handler) → (limit now next r w rl).1 ≡ next r w)
      × (turn.1 ≡ false
          → (out : Writer) × ((next : Handler) → (limit now next r w rl).1 ≡ returned out)
            × IsExceeded rl.window w out)
unfolding limit rate_limit
limit-allow now r w rl unsent = (
  λ next. refl,
  λ on next. rw on refl,
  λ off. (
    refuse_exceeded rl.window w,
    λ next. rw off refl,
    refuse_exceeded-IsExceeded rl.window w unsent,
  ),
)
