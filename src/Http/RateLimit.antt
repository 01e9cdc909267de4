-- ===== src/Http/RateLimit.antt =====
-- internal/http/middleware/ratelimit.go. Times and durations are nanoseconds.
pub mod Cleaning
pub mod Bursts
pub mod Guarded
use mathlib.Core.List.{lookup}
use verus_gateway.Base.{
  ℕ, zero, suc, ◌+◌, ◌*◌, ◌/◌, ◌^◌, ◌≡◌, refl, Bool, true, false, not, Option, none, some, List, [],
  ◌∷◌, ◌++◌, arith, ltb, leb, ◌==◌, list_eq, if◌then◌else◌, length,
}
use verus_gateway.Base.Bytes.{Str, lit}
use verus_gateway.Base.Int.{ℤ, pos, ◌-ℤ◌, leb_ℤ, ltb_ℤ, add64, sub64}
use verus_gateway.Domain.Request.{is_empty}

pub record Visitor : Type 0 where
  pub tokens : ℤ
  pub last_seen : ℕ
  pub last_refill : ℕ

pub record RateLimiter : Type 0 where
  pub visitors : List (Str × Visitor)
  pub rate : ℤ
  pub window : ℤ
  pub cleanup : ℤ

pub record RateLimitConfig : Type 0 where
  pub requests_per_window : ℤ
  pub window : ℤ
  pub cleanup_interval : ℤ

unfoldable pub new_rate_limiter : RateLimitConfig → RateLimiter
new_rate_limiter config = record {
  visitors = [];
  rate = config.requests_per_window;
  window = config.window;
  cleanup = config.cleanup_interval;
}

unfoldable pub visitor : Str → List (Str × Visitor) → Option Visitor
unfolding lookup
visitor = lookup list_eq.dec

-- `rl.visitors[ip] = v`
unfoldable pub put : Str → Visitor → List (Str × Visitor) → List (Str × Visitor)
put ip v [] = (ip, v) ∷ []
put ip v ((i, w) ∷ visitors) = if ip == i then (i, v) ∷ visitors else (i, w) ∷ put ip v visitors

-- The visitor after its `lastSeen` and its tokens are brought up to date.
unfoldable pub refill : RateLimiter → ℕ → Visitor → Visitor
refill rl now v =
    if leb_ℤ rl.window (pos now -ℤ pos v.last_refill)
    then record { tokens = rl.rate; last_seen = now; last_refill = now }
    else record v { last_seen = now }

-- `allow`, at the time `now`.
unfoldable pub allow : ℕ → Str → RateLimiter → RateLimiter × Bool
allow now ip rl = elim (visitor ip rl.visitors) [
  | none ↦
      let v : Visitor = record {
        tokens = sub64 rl.rate (pos 1);
        last_seen = now;
        last_refill = now;
      } in
      (record rl { visitors = put ip v rl.visitors }, true)
  | some v ↦
      let v' = refill rl now v in
      if ltb_ℤ (pos 0) v'.tokens
      then (
        record rl {
          visitors = put ip (record v' { tokens = sub64 v'.tokens (pos 1) }) rl.visitors;
        },
        true,
      )
      else (record rl { visitors = put ip v' rl.visitors }, false)
]

-- Not seen in twice the window.
unfoldable pub is_stale : ℤ → ℕ → Visitor → Bool
is_stale window now v = ltb_ℤ (add64 window window) (pos now -ℤ pos v.last_seen)

unfoldable pub sweep : ℤ → ℕ → List (Str × Visitor) → List (Str × Visitor)
sweep window now [] = []
sweep window now ((ip, v) ∷ visitors) =
    let rest = sweep window now visitors in if is_stale window now v then rest else (ip, v) ∷ rest

-- One tick of `cleanupVisitors`.
unfoldable pub cleanup_visitors : ℕ → RateLimiter → RateLimiter
cleanup_visitors now rl = record rl { visitors = sweep rl.window now rl.visitors }

-- What a request tells of its sender.
pub record Sender : Type 0 where
  pub forwarded_for : Str
  pub real_ip : Str
  pub remote_addr : Str

-- `getClientIP`
unfoldable pub get_client_ip : Sender → Str
get_client_ip r =
    if not (is_empty r.forwarded_for)
    then r.forwarded_for
    else if not (is_empty r.real_ip)
    then r.real_ip
    else r.remote_addr

-- The middleware: the limiter, and whether the request goes on to the next handler.
unfoldable pub rate_limit : ℕ → Sender → RateLimiter → RateLimiter × Bool
rate_limit now r rl = allow now (get_client_ip r) rl

-- The number of visitors, the rate and the window of `Stats`.
unfoldable pub stats : RateLimiter → ℕ × ℤ × ℤ
stats rl = (length rl.visitors, rl.rate, rl.window)
