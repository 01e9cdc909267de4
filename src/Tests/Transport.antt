-- ===== src/Tests/Transport.antt =====
-- The RPC client, the chains and the middlewares.
use mathlib.Core.List.{lookup}
use Prim.Native.Nat.{min}
use verus_gateway.Base.{
  ℕ, zero, suc, ◌≡◌, ◌↔◌, refl, true, false, none, List, [], ◌∷◌, arith, list_eq, nat_eq, list_dec,
  ℕ_discrete,
}
use verus_gateway.Base.Bytes.{Bytes, Str, lit}
use verus_gateway.Base.Int.{pos_part, ◌+ℤ◌, pos, ◌-ℤ◌}
use verus_gateway.Domain.Errors.{Result, ok, plain}
use verus_gateway.Rpc.{
  Client, Config, new_client, Response, Attempt, received, not_sent, answered, turns, call_all,
}
use verus_gateway.Rpc.Retries.{Succeeds}
use verus_gateway.Rpc.Outcome.{call_all-answered_iff}
use verus_gateway.Rpc.Counting.{Counts, call_all-Counts}
use verus_gateway.Chain.{ChainConfig, ChainsConfig, Chain, Manager, new_chain}
use verus_gateway.Http.RateLimit.{RateLimiter, visitor, allow, cleanup_visitors}
use verus_gateway.Http.RateLimit.Cleaning.{IsSound, allow-cleanup_visitors}
use verus_gateway.Http.RateLimit.Bursts.{allowed, allowed-new}
use verus_gateway.Http.Auth.Guard.{MayPass, auth, require_key, IsRefused, require_key-new}
use verus_gateway.Http.Middleware.{Writer, returned, Handler}
use verus_gateway.Tests.Exchanges.{request, untouched}
use verus_gateway.Http.Auth.Access.{Has}
use verus_gateway.Http.Cors.{is_origin_allowed}
use verus_gateway.Http.Cors.Origins.{Allows, is_origin_allowed_iff}

abbrev unmarshal : Bytes → Result Response
unmarshal body = ok (record { result = body; error = none })

-- The first turn fails, and the next one is answered.
abbrev attempts : ℕ → Attempt
attempts zero = record {
  interrupted = none;
  exchange = not_sent (plain []);
  micros = pos 5;
  ctx = none;
}
attempts (suc n) = record {
  interrupted = none;
  exchange = received 200 (b'x' ∷ []);
  micros = pos 5;
  ctx = none;
}

abbrev rpc_config : Config
rpc_config = record {
  url = [];
  user = [];
  password = [];
  timeout = pos 0;
  tls_insecure = false;
  max_retries = pos 0;
  retry_delay = pos 0;
}

abbrev client : Client
client = new_client rpc_config

call_all-answered_iff_example :
    ((call_all unmarshal attempts client).1 ≡ answered (b'x' ∷ []))
    ↔ Succeeds unmarshal attempts (turns client.max_retries) 0 (b'x' ∷ [])
call_all-answered_iff_example = call_all-answered_iff unmarshal attempts client (b'x' ∷ [])

call_all-Counts_example :
    Counts unmarshal attempts
      (pos_part (client.max_retries +ℤ pos 1))
      0
      client
      (call_all unmarshal attempts client).0
      (call_all unmarshal attempts client).1
unfolding new_client
call_all-Counts_example = call_all-Counts unmarshal attempts client (omega arith, omega arith)

abbrev chain_config : ChainConfig
chain_config = record {
  name = [];
  enabled = true;
  rpc_url = [];
  rpc_user = [];
  rpc_password = [];
  rpc_timeout = pos 0;
  tls_insecure = false;
  max_retries = pos 0;
  retry_delay = pos 0;
}

abbrev chains_config : ChainsConfig
chains_config = record { default = []; chains = (b'v' ∷ [], chain_config) ∷ [] }

abbrev in_order : List (Str × Chain) → List (Str × Chain)
in_order chains = chains

abbrev manager : Manager
manager = record {
  chains = (b'v' ∷ [], new_chain (b'v' ∷ []) chain_config) ∷ [];
  default_chain = b'v' ∷ [];
}

abbrev ip : Str
ip = b'1' ∷ []

abbrev limiter : RateLimiter
limiter = record {
  visitors = (ip, record { tokens = pos 1; last_seen = 5; last_refill = 5 }) ∷ [];
  rate = pos 2;
  window = pos 10;
  cleanup = pos 1;
}

limiter-IsSound : IsSound 5 limiter
unfolding visitor lookup
limiter-IsSound = record {
  is_map = (refl, tt);
  rate = (omega arith, omega arith);
  visitors = λ q v h. ground arith;
}

allow-cleanup_visitors_example :
    ((allow 41 ip (cleanup_visitors 40 limiter)).1 ≡ (allow 41 ip limiter).1)
    × (visitor ip (allow 41 ip (cleanup_visitors 40 limiter)).0.visitors
        ≡ visitor ip (allow 41 ip limiter).0.visitors)
allow-cleanup_visitors_example =
    allow-cleanup_visitors 5 40 41 ip limiter limiter-IsSound (omega arith) (omega arith)
      (omega arith)

abbrev stranger : Str
stranger = b'2' ∷ []

allowed-new_example : allowed stranger (3 ∷ 4 ∷ 5 ∷ []) limiter ≡ min 3 2
unfolding visitor lookup list_dec ℕ_discrete ◌-ℤ◌
allowed-new_example =
    allowed-new stranger 3 (4 ∷ 5 ∷ []) limiter 2 refl (omega arith) (omega arith) refl
      ((omega arith, omega arith), ((omega arith, omega arith), tt))

abbrev keys : List Str
keys = (b'k' ∷ []) ∷ []

require_key-new_example :
    (MayPass keys [] request
      → (next : Handler)
      → require_key (auth keys [] request) next request untouched ≡ next request untouched)
    × ((¬ MayPass keys [] request)
        → (out : Writer) × ((next : Handler)
            → require_key (auth keys [] request) next request untouched ≡ returned out)
          × IsRefused untouched out)
require_key-new_example = require_key-new keys [] request untouched refl

is_origin_allowed_iff_example :
    (is_origin_allowed (lit "https://evilexample.com") (lit "*.example.com" ∷ []) ≡ true)
    ↔ ((o : Str) × Has o (lit "*.example.com" ∷ []) × Allows (lit "https://evilexample.com") o)
is_origin_allowed_iff_example =
    is_origin_allowed_iff (lit "https://evilexample.com") (lit "*.example.com" ∷ [])
