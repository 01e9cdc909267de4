-- ===== src/Http/RateLimit/Bursts.antt =====
-- A burst of requests of one client.
use mathlib.Core.Path.{subst}
use verus_gateway.Base.{
  ℕ, suc, ◌+◌, ◌-◌, ◌^◌, ◌≤◌, ◌<◌, ◌≡◌, refl, ap, sym, ◌∙◌, true, false, inl, inr, none, some, List,
  [], ◌∷◌, arith, list_eq, if◌then◌else◌, length, All, Bool-cases,
}
use verus_gateway.Base.Bytes.{Str}
use verus_gateway.Base.Int.{◌<ℤ◌, ℤ, pos, ◌-ℤ◌, ◌≤ℤ◌, ltb_ℤ, sub64, pos_part}
use verus_gateway.Http.RateLimit.{Visitor, RateLimiter, visitor, put, refill, allow}
use Prim.Native.Nat.{min}
use verus_gateway.Http.RateLimit.Cleaning.{serve, visitor-put, served, allow-serve, take_token}

-- The number of the requests at these times that are allowed, one after the other.
abbrev pub allowed : Str → List ℕ → RateLimiter → ℕ
allowed ip [] rl = 0
allowed ip (now ∷ times) rl =
    let (rl', passes) = allow now ip rl in (if passes then 1 else 0) + allowed ip times rl'

-- Every time is at most the window after `t`, and not as late as its end.
abbrev pub IsWithin : ℤ → ℕ → List ℕ → Type 0
IsWithin window t times = All (λ now. (t ≤ now) × ((pos now -ℤ pos t) <ℤ window)) times

module _ (ip : Str) (now : ℕ) (times : List ℕ) (rl : RateLimiter) where
  abbrev next : RateLimiter
  next = record rl { visitors = put ip (served now ip rl).0 rl.visitors }

  allowed-cons :
      allowed ip (now ∷ times) rl ≡ (if (served now ip rl).1 then 1 else 0) + allowed ip times next
  allowed-cons = ap (λ r. (if r.1 then 1 else 0) + allowed ip times r.0) (allow-serve now ip rl)

-- Before its window has passed, a visitor is not refilled.
module _ (rl : RateLimiter) (now : ℕ) (v : Visitor)
    (lt : (pos now -ℤ pos v.last_refill) <ℤ rl.window) where
  serve_token :
      pos 1 ≤ℤ v.tokens
      → serve rl now (some v)
        ≡ (record v { last_seen = now; tokens = sub64 v.tokens (pos 1) }, true)
  unfolding serve refill
  serve_token h = ground arith

  serve_empty : v.tokens ≤ℤ pos 0 → serve rl now (some v) ≡ (record v { last_seen = now }, false)
  unfolding serve refill
  serve_empty h = ground arith

module _ (ip : Str) (t : ℕ) where
  allowed_rest :
      (times : List ℕ) (rl : RateLimiter) (v : Visitor)
      → rl.rate ≤ℤ pos (2 ^ 63 - 1)
      → pos 0 ≤ℤ v.tokens
      → v.tokens ≤ℤ rl.rate
      → visitor ip rl.visitors ≡ some v
      → v.last_refill ≡ t
      → IsWithin rl.window t times
      → allowed ip times rl ≡ min (length times) (pos_part v.tokens)
  allowed_rest [] rl v r k k' h e w = omega arith
  allowed_rest (now ∷ times) rl v r k k' h e ((le, lt), w) =
      let lt' : (pos now -ℤ pos v.last_refill) <ℤ rl.window = rw e lt in
      let later : visitor ip (put ip (served now ip rl).0 rl.visitors) ≡ some (served now ip rl).0 =
        visitor-put ip ip (served now ip rl).0 rl.visitors ∙ ground arith in
      elim (Bool-cases (ltb_ℤ (pos 0) v.tokens)) [
        | inl more ↦
            let one = serve_token rl now v lt' (ground arith) in
            let step = ap (serve rl now) h ∙ one in
            let less = take_token v.tokens (ground arith) (ground arith) in
            let bound : pos (pos_part v.tokens - 1) ≤ℤ rl.rate = ground arith in
            let rest =
              allowed_rest times (next ip now times rl)
                (record v { last_seen = now; tokens = sub64 v.tokens (pos 1) }) r
                (rw less (omega arith)) (subst (λ z. z ≤ℤ rl.rate) (sym less) bound)
                (later ∙ ap (λ r. some r.0) step) e w in
            allowed-cons ip now times rl ∙ rw step (ground (arith, rest, less))
        | inr empty ↦
            let none' = serve_empty rl now v lt' (ground arith) in
            let step = ap (serve rl now) h ∙ none' in
            let rest =
              allowed_rest times (next ip now times rl) (record v { last_seen = now }) r k k'
                (later ∙ ap (λ r. some r.0) step) e w in
            allowed-cons ip now times rl ∙ rw step (ground (arith, rest))
      ]

-- With a rate from 1 to 2^63 - 1, a client that the limiter does not know yet, and whose requests all fall
-- into one window from the first on, has as many of them allowed as the rate says, or all of them if
-- they are fewer.
pub allowed-new :
    (ip : Str) (t : ℕ) (times : List ℕ) (rl : RateLimiter) (rate : ℕ)
    → rl.rate ≡ pos rate
    → 0 < rate
    → rate < 2 ^ 63
    → visitor ip rl.visitors ≡ none
    → IsWithin rl.window t times
    → allowed ip (t ∷ times) rl ≡ min (suc (length times)) rate
unfolding serve
allowed-new ip t times rl rate e h k fresh w =
    let step = ap (serve rl t) fresh in
    let first = take_token rl.rate (rw e (omega arith)) (rw e (omega arith)) in
    let rest =
      allowed_rest ip t times (next ip t times rl)
        (record { tokens = sub64 rl.rate (pos 1); last_seen = t; last_refill = t })
        (rw e (omega arith)) (rw first (omega arith)) (ground (arith, first, e))
        (visitor-put ip ip (served t ip rl).0 rl.visitors ∙ ground arith ∙ ap (λ r. some r.0) step)
        refl w in
    allowed-cons ip t times rl ∙ rw step (ground (arith, rest, first, e))
