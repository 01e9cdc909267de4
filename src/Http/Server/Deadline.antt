-- ===== src/Http/Server/Deadline.antt =====
-- The deadline that the configured read time-out gives a request.
use verus_gateway.Base.{ℕ, ◌+◌, ◌*◌, ◌%◌, ◌^◌, ◌≤◌, ◌<◌, ◌≡◌, ◌⊎◌, ◌↔◌, refl, ap, none, some, arith}
use verus_gateway.Base.Int.{ℤ, pos, ◌+ℤ◌, ◌≤ℤ◌, wrap64, mul64}
use verus_gateway.Http.Middleware.{Request, Writer, Handler, with_timeout, timeout}
use verus_gateway.Http.Server.{in_seconds}

in_seconds-pos : (d : ℕ) → in_seconds (pos d) ≡ wrap64 (pos (d * 10 ^ 9))
unfolding in_seconds mul64
in_seconds-pos d = ap wrap64 (ground arith)

-- A sum with the value that 64 bits keep of a number.
ahead_iff :
    (now n : ℕ)
    → let m = n % 2 ^ 64 in
      ((pos now +ℤ wrap64 (pos n) ≤ℤ pos now) ↔ ((m ≡ 0) ⊎ (2 ^ 63 ≤ m)))
      × (m < 2 ^ 63 → pos now +ℤ wrap64 (pos n) ≡ pos (now + m))
unfolding wrap64 ◌+ℤ◌
ahead_iff now n = ground arith

-- The durations whose product with a second is no positive number on 64 bits.
abbrev pub IsLost : ℕ → Type 0
IsLost d = let m = (d * 10 ^ 9) % 2 ^ 64 in (m ≡ 0) ⊎ (2 ^ 63 ≤ m)

pub past_of_lost : (now d : ℕ) → IsLost d → pos now +ℤ in_seconds (pos d) ≤ℤ pos now
past_of_lost now d lost = rw (in_seconds-pos d) ((ahead_iff now (d * 10 ^ 9)).0.1 lost)

-- A time-out of `d` nanoseconds sets a deadline that is past already, exactly if what 64 bits keep of
-- `d` times the nanoseconds of a second is 0 or has its sign bit; otherwise it lies as far ahead as
-- that number of nanoseconds.
pub timeout_past_iff :
    (now d : ℕ) (next : Handler) (r : Request) (w : Writer)
    → r.deadline ≡ none
    → let m = (d * 10 ^ 9) % 2 ^ 64 in
      (x : ℤ) × (timeout now (in_seconds (pos d)) next r w
        ≡ next (record r { deadline = some x }) w)
      × ((x ≤ℤ pos now) ↔ ((m ≡ 0) ⊎ (2 ^ 63 ≤ m)))
      × (m < 2 ^ 63 → x ≡ pos (now + m))
unfolding timeout with_timeout
timeout_past_iff now d next r w h =
    let (past, ahead) = ahead_iff now (d * 10 ^ 9) in
    (
      pos now +ℤ in_seconds (pos d),
      rw h refl,
      rw (in_seconds-pos d) past,
      rw (in_seconds-pos d) ahead,
    )
