-- ===== src/Tests/Startup.antt =====
-- The configuration.
use mathlib.Core.List.{lookup}
use verus_gateway.Base.{
  ℕ, ◌^◌, ◌≡◌, ◌⊎◌, refl, true, false, none, List, [], ◌∷◌, ◌++◌, list_eq, list_dec, ℕ_discrete,
}
use verus_gateway.Base.Bytes.{Str, lit}
use verus_gateway.Base.Int.{pos}
use verus_gateway.Domain.Errors.{plain, Result, err}
use verus_gateway.Chain.{ChainConfig, ChainsConfig, Chain, entry}
use verus_gateway.Cache.State.{FilesystemCacheConfig}
use verus_gateway.Chain.Lookup.{IsMap}
use verus_gateway.Config.{
  Config, RedisCacheConfig, validate, initialize_cache, validate_chains, validate_chain, one_of,
  valid_cache_types, valid_levels, lacks_default,
}
use verus_gateway.Config.Startup.{passed_on, filesystem_settings, initialize_cache-validated}

abbrev chain_config : ChainConfig
chain_config = record {
  name = [];
  enabled = true;
  rpc_url = b'u' ∷ [];
  rpc_user = b'u' ∷ [];
  rpc_password = b'p' ∷ [];
  rpc_timeout = pos (10 ^ 9);
  tls_insecure = false;
  max_retries = pos 3;
  retry_delay = pos 0;
}

abbrev redis_config : RedisCacheConfig
redis_config = record {
  addresses = [];
  password = [];
  db = pos 0;
  max_retries = pos 0;
  pool_size = pos 0;
  timeout = pos 0;
  ttl = pos 0;
}

abbrev chains_config : ChainsConfig
chains_config = record { default = []; chains = (b'v' ∷ [], chain_config) ∷ [] }

abbrev config : Config
config = record {
  port = pos 8080;
  chains = chains_config;
  cache = record {
    kind = lit "multi";
    dir = [];
    max_size = pos 0;
    ttl = pos 0;
    cleanup_interval = pos 0;
    redis = redis_config;
  };
  level = lit "info";
}

config_accepted : validate config ≡ none
unfolding validate validate_chains validate_chain one_of valid_cache_types valid_levels
    lacks_default lit list_dec ℕ_discrete
config_accepted = refl

abbrev no_filesystem : FilesystemCacheConfig → Result ℕ
no_filesystem c = err (plain [])

abbrev no_redis : RedisCacheConfig → Result ℕ
no_redis c = err (plain [])

initialize_cache-validated_example :
    let answer = initialize_cache no_filesystem no_redis config in
    ((config.cache.kind ≡ lit "filesystem")
        × (answer ≡ passed_on (no_filesystem (filesystem_settings config)))
      ⊎ (config.cache.kind ≡ lit "redis")
        × (answer ≡ passed_on (no_redis (record config.cache.redis { ttl = config.cache.ttl }))))
    ⊎ (((config.cache.kind ≡ lit "memcached") ⊎ (config.cache.kind ≡ lit "multi"))
        × (answer ≡ err (plain (lit "unsupported cache type: " ++ config.cache.kind))))
initialize_cache-validated_example =
    initialize_cache-validated no_filesystem no_redis config config_accepted

abbrev in_order : List (Str × Chain) → List (Str × Chain)
in_order chains = chains

chains-IsMap : IsMap chains_config.chains
unfolding entry lookup
chains-IsMap = (refl, tt)
