-- ===== src/Config.antt =====
-- internal/config/config.go: the validation of a configuration, and what cmd/gateway/main.go makes of its
-- cache. The fields that neither reads are left out.
pub mod Valid
pub mod Startup
pub mod Settings
use verus_gateway.Base.{
  ℕ, zero, suc, ◌*◌, ◌^◌, ◌≡◌, refl, Bool, true, false, not, ◌&&◌, ◌||◌, Option, none, some, List,
  [], ◌∷◌, ◌++◌, arith, ltb, ◌==◌, nat_eq, list_eq, if◌then◌else◌, length,
}
use verus_gateway.Base.Bytes.{Str, lit}
use verus_gateway.Base.Int.{ℤ, pos, ltb_ℤ}
use verus_gateway.Base.Decimal.{decimal_ℤ}
use verus_gateway.Domain.Errors.{Error, plain, wrapped, Result, ok, err}
use verus_gateway.Domain.Request.{is_empty}
use verus_gateway.Chain.{ChainConfig, ChainsConfig, entry}
use verus_gateway.Cache.State.{FilesystemCacheConfig}

pub record RedisCacheConfig : Type 0 where
  pub addresses : List Str
  pub password : Str
  pub db : ℤ
  pub max_retries : ℤ
  pub pool_size : ℤ
  pub timeout : ℤ
  pub ttl : ℤ

-- `kind` is the field `Type`.
pub record CacheConfig : Type 0 where
  pub kind : Str
  pub dir : Str
  pub max_size : ℤ
  pub ttl : ℤ
  pub cleanup_interval : ℤ
  pub redis : RedisCacheConfig

pub record Config : Type 0 where
  pub port : ℤ
  pub chains : ChainsConfig
  pub cache : CacheConfig
  pub level : Str

-- `ChainConfig.Validate`
unfoldable pub validate_chain : ChainConfig → Option Error
validate_chain cc =
    if not cc.enabled
    then none
    else if is_empty cc.rpc_url
    then some (plain (lit "rpc_url is required"))
    else if is_empty cc.rpc_user
    then some (plain (lit "rpc_user is required"))
    else if is_empty cc.rpc_password
    then some (plain (lit "rpc_password is required"))
    else if ltb_ℤ cc.rpc_timeout (pos (10 ^ 9))
    then some (plain (lit "rpc_timeout must be at least 1 second"))
    else if ltb_ℤ cc.max_retries (pos 0) || ltb_ℤ (pos 10) cc.max_retries
    then some (plain (lit "max_retries must be between 0 and 10"))
    else none

-- The loop over the chains, in the order of the list.
unfoldable pub validate_chains : List (Str × ChainConfig) → Option Error
validate_chains [] = none
validate_chains ((id, cc) ∷ rest) =
    let later = validate_chains rest in
    elim (validate_chain cc) [
      | some e ↦ some (wrapped (lit "invalid chain config for '" ++ (id ++ lit "'")) e)
      | none ↦ later
    ]

unfoldable pub one_of : Str → List Str → Bool
one_of s [] = false
one_of s (t ∷ texts) = if s == t then true else one_of s texts

unfoldable pub valid_cache_types : List Str
valid_cache_types = lit "filesystem" ∷ lit "redis" ∷ lit "memcached" ∷ lit "multi" ∷ []

unfoldable pub valid_levels : List Str
valid_levels = lit "debug" ∷ lit "info" ∷ lit "warn" ∷ lit "error" ∷ []

-- Whether a default chain is named that is not in the configuration.
unfoldable pub lacks_default : ChainsConfig → Bool
lacks_default c =
    if is_empty c.default
    then false
    else elim (entry c.default c.chains) [ none ↦ true | some _ ↦ false ]

-- `Config.Validate`
unfoldable pub validate : Config → Option Error
validate c =
    if ltb_ℤ c.port (pos 1) || ltb_ℤ (pos 65535) c.port
    then some (plain (lit "invalid server port: " ++ decimal_ℤ c.port))
    else if length c.chains.chains == 0
    then some (plain (lit "no chains configured"))
    else if lacks_default c.chains
    then some (plain (lit "default chain '" ++ (c.chains.default ++ lit "' not found in chains")))
    else elim (validate_chains c.chains.chains) [
      | some e ↦ some e
      | none ↦
          if not (one_of c.cache.kind valid_cache_types)
          then some (plain (lit "invalid cache type: " ++ c.cache.kind))
          else if not (one_of c.level valid_levels)
          then some (plain (lit "invalid log level: " ++ c.level))
          else none
    ]

-- `initializeCache` of main.go, over the two constructors.
unfoldable pub initialize_cache {ℓ} :
    {A : Type ℓ}
    → (FilesystemCacheConfig → Result A)
    → (RedisCacheConfig → Result A)
    → Config
    → Result (Option A)
initialize_cache new_filesystem new_redis cfg =
    let done : Result _ → Result (Option _) =
      λ r. elim r [ err e ↦ err e | ok cache ↦ ok (some cache) ] in
    if cfg.cache.kind == lit "filesystem"
    then done (
        new_filesystem (record {
          base_dir = cfg.cache.dir;
          max_size = cfg.cache.max_size;
          ttl = cfg.cache.ttl;
          cleanup_interval = cfg.cache.cleanup_interval;
        }))
    else if cfg.cache.kind == lit "redis"
    then done (new_redis (record cfg.cache.redis { ttl = cfg.cache.ttl }))
    else if cfg.cache.kind == lit "none" || is_empty cfg.cache.kind
    then ok none
    else err (plain (lit "unsupported cache type: " ++ cfg.cache.kind))
