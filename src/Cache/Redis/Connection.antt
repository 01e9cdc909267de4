-- ===== src/Cache/Redis/Connection.antt =====
-- The constructor of the Redis cache. `connect` is `redis.NewClient`, and `ping` the error of `Ping`, sent
-- with a time-out.
use verus_gateway.Base.{
  ◌*◌, ◌^◌, ◌≡◌, refl, ap, ◌∙◌, Option, none, some, List, [], ◌∷◌, ℕ_discrete, list_dec, nat_eq,
  list_eq,
}
use verus_gateway.Base.Bytes.{Str, lit}
use verus_gateway.Base.Int.{ℤ, or_default}
use verus_gateway.Domain.Errors.{Error, wrapped, Result, ok, err}
use verus_gateway.Config.{Config, RedisCacheConfig, initialize_cache}
use verus_gateway.Cache.State.{FilesystemCacheConfig}
use verus_gateway.Cache.Redis.{RedisClient, RedisCache}

-- `redis.Options`
pub record Options : Type 0 where
  pub addr : Str
  pub password : Str
  pub db : ℤ
  pub max_retries : ℤ
  pub pool_size : ℤ
  pub dial_timeout : ℤ
  pub read_timeout : ℤ
  pub write_timeout : ℤ

unfoldable pub with_defaults : RedisCacheConfig → RedisCacheConfig
with_defaults cfg = record cfg {
  timeout = or_default cfg.timeout (5 * 10 ^ 9);
  ttl = or_default cfg.ttl (24 * (3600 * 10 ^ 9));
  max_retries = or_default cfg.max_retries 3;
  pool_size = or_default cfg.pool_size 10;
}

-- The first of the addresses.
unfoldable pub address : List Str → Str
address [] = lit "localhost:6379"
address (first ∷ rest) = first

unfoldable pub options : RedisCacheConfig → Options
options cfg = record {
  addr = address cfg.addresses;
  password = cfg.password;
  db = cfg.db;
  max_retries = cfg.max_retries;
  pool_size = cfg.pool_size;
  dial_timeout = cfg.timeout;
  read_timeout = cfg.timeout;
  write_timeout = cfg.timeout;
}

-- The settings that `initializeCache` hands over, with the time to live of the cache.
abbrev pub redis_settings : Config → RedisCacheConfig
redis_settings cfg = record cfg.cache.redis { ttl = cfg.cache.ttl }

module _ (R : RedisClient) (connect : Options → R.State) (ping : Options → ℤ → Option Error) where
  -- `NewRedisCache`
  unfoldable pub new_redis_cache : RedisCacheConfig → Result (RedisCache R)
  new_redis_cache given =
      let cfg = with_defaults given in
      elim (ping (options cfg) cfg.timeout) [
        | some e ↦ err (wrapped (lit "failed to connect to Redis") e)
        | none ↦ ok (record { store = connect (options cfg); ttl = cfg.ttl; hits = 0; misses = 0 })
      ]

  new_redis_cache-answered :
      (given : RedisCacheConfig)
      → ping (options (with_defaults given)) (with_defaults given).timeout ≡ none
      → new_redis_cache given
        ≡ ok (record {
          store = connect (options (with_defaults given));
          ttl = (with_defaults given).ttl;
          hits = 0;
          misses = 0;
        })
  unfolding new_redis_cache
  new_redis_cache-answered given h = rw (h, new_redis_cache) refl

  new_redis_cache-failed :
      (given : RedisCacheConfig) (e : Error)
      → ping (options (with_defaults given)) (with_defaults given).timeout ≡ some e
      → new_redis_cache given ≡ err (wrapped (lit "failed to connect to Redis") e)
  unfolding new_redis_cache
  new_redis_cache-failed given e h = rw (h, new_redis_cache) refl

  initialize_cache-new_redis_cache :
      (new_filesystem : FilesystemCacheConfig → Result (RedisCache R)) (cfg : Config)
      → cfg.cache.kind ≡ lit "redis"
      → initialize_cache new_filesystem new_redis_cache cfg
        ≡ elim (new_redis_cache (redis_settings cfg)) [ err e ↦ err e | ok cache ↦ ok (some cache) ]
  unfolding initialize_cache lit ℕ_discrete list_dec
  initialize_cache-new_redis_cache new_filesystem cfg kind = rw kind refl

  -- With the cache type `redis` the program starts with a cache exactly if the server answers the ping,
  -- within the time-out, or 5 seconds for 0. The entries live as long as the cache's own setting
  -- says, or a day for 0, whatever the setting of the Redis part.
  pub initialize_cache-redis :
      (new_filesystem : FilesystemCacheConfig → Result (RedisCache R)) (cfg : Config)
      → cfg.cache.kind ≡ lit "redis"
      → let settings = with_defaults (redis_settings cfg) in
        let answer = ping (options settings) (or_default cfg.cache.redis.timeout (5 * 10 ^ 9)) in
        (answer ≡ none
          → (c : RedisCache R) × (initialize_cache new_filesystem new_redis_cache cfg ≡ ok (some c))
            × (c.ttl ≡ or_default cfg.cache.ttl (24 * (3600 * 10 ^ 9)))
            × (c.store ≡ connect (options settings)))
        × ((e : Error)
            → answer ≡ some e
            → initialize_cache new_filesystem new_redis_cache cfg
              ≡ err (wrapped (lit "failed to connect to Redis") e))
  unfolding with_defaults
  initialize_cache-redis new_filesystem cfg kind =
      let start = initialize_cache-new_redis_cache new_filesystem cfg kind in
      let finish : Result (RedisCache R) → Result (Option (RedisCache R)) =
        λ r. elim r [ err e ↦ err e | ok cache ↦ ok (some cache) ] in
      (
        λ answered. (
          _,
          start ∙ ap finish (new_redis_cache-answered (redis_settings cfg) answered),
          refl,
          refl,
        ),
        λ e failed. start ∙ ap finish (new_redis_cache-failed (redis_settings cfg) e failed),
      )
