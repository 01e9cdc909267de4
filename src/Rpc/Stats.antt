-- ===== src/Rpc/Stats.antt =====
-- pkg/verusrpc/client.go: the statistics of a client. The rate of errors is the exact quotient of a pair.
use verus_gateway.Base.{
  ℕ, ◌+◌, ◌*◌, ◌/◌, ◌^◌, ◌≤◌, ◌<◌, ◌≡◌, ap, ◌∙◌, Option, none, some, arith, ltb, if◌then◌else◌,
}
use verus_gateway.Base.Int.{ℤ, pos, wrap64, wrap64_exact, mul64, mul64_pos, div64, div64_pos}
use verus_gateway.Rpc.{Client}

-- Durations are nanoseconds.
pub record Stats : Type 0 where
  pub requests : ℕ
  pub errors : ℕ
  pub total_duration : ℤ
  pub average_duration : ℤ
  pub error_rate : Option (ℕ × ℕ)

unfoldable pub stats : Client → Stats
stats c =
    let total = mul64 c.total_duration (pos 1000) in
    record {
      requests = c.request_count;
      errors = c.error_count;
      total_duration = total;
      average_duration =
          if ltb 0 c.request_count then div64 total (wrap64 (pos c.request_count)) else pos 0;
      error_rate = if ltb 0 c.request_count then some (c.error_count, c.request_count) else none;
    }

module _ (c : Client) (micros : ℕ) where
  total_exact :
      c.total_duration ≡ pos micros
      → micros * 1000 < 2 ^ 63
      → (stats c).total_duration ≡ pos (micros * 1000)
  unfolding stats
  total_exact t small = ap (λ d. mul64 d (pos 1000)) t ∙ mul64_pos micros 1000 small

  average_exact :
      c.total_duration ≡ pos micros
      → micros * 1000 < 2 ^ 63
      → 0 < c.request_count
      → c.request_count < 2 ^ 63
      → (stats c).average_duration ≡ pos (micros * 1000 / c.request_count)
  unfolding stats
  average_exact t small some_request few =
      let whole = wrap64_exact (pos c.request_count) (omega arith) in
      ground (
        arith,
        total_exact t small,
        whole,
        div64_pos (micros * 1000) c.request_count some_request small,
      )

  -- While neither the total of the durations nor the number of requests leaves int64, the average times
  -- the number of requests is at most the total in nanoseconds, and one nanosecond more is above it.
  pub stats_average :
      c.total_duration ≡ pos micros
      → micros * 1000 < 2 ^ 63
      → 0 < c.request_count
      → c.request_count < 2 ^ 63
      → (average : ℕ) × ((stats c).total_duration ≡ pos (micros * 1000))
        × ((stats c).average_duration ≡ pos average)
        × (average * c.request_count ≤ micros * 1000)
        × (micros * 1000 < (average + 1) * c.request_count)
  stats_average t small some_request few = (
    micros * 1000 / c.request_count,
    total_exact t small,
    average_exact t small some_request few,
    grind arith,
    grind arith,
  )
