-- ===== src/Config/Settings.antt =====
-- internal/config/config.go: the whole configuration, its defaults, and how it is loaded. What viper makes of the
-- defaults, a file and the environment is the argument `decode`. Durations are nanoseconds; a rate of
-- samples is a number of thousandths.
pub mod Defaults
use verus_gateway.Base.{
  ℕ, ◌*◌, ◌^◌, ◌≡◌, refl, Bool, true, false, Option, none, some, List, [], ◌∷◌, ◌++◌, arith,
}
use verus_gateway.Base.Bytes.{Str, lit}
use verus_gateway.Base.Int.{ℤ, pos}
use verus_gateway.Domain.Errors.{Error, wrapped, Result, ok, err}
use verus_gateway.Chain.{ChainsConfig}
use verus_gateway.Config.{Config, CacheConfig, validate}

pub record ServerConfig : Type 0 where
  pub port : ℤ
  pub host : Str
  pub read_timeout : ℤ
  pub write_timeout : ℤ
  pub idle_timeout : ℤ
  pub shutdown_timeout : ℤ
  pub max_request_size : ℤ

pub record MemcachedCacheConfig : Type 0 where
  pub servers : List Str
  pub timeout : ℤ

pub record CorsConfig : Type 0 where
  pub enabled : Bool
  pub allowed_origins : List Str
  pub allowed_methods : List Str
  pub allowed_headers : List Str
  pub expose_headers : List Str
  pub max_age : ℤ

pub record SecurityConfig : Type 0 where
  pub cors : CorsConfig
  pub max_filename_len : ℤ
  pub allowed_methods : List Str
  pub trusted_proxies : List Str

pub record RateLimitConfig : Type 0 where
  pub enabled : Bool
  pub window_size : ℤ
  pub max_requests : ℤ
  pub burst : ℤ

pub record LoggingConfig : Type 0 where
  pub level : Str
  pub format : Str
  pub output : Str
  pub file_path : Str

pub record MetricsConfig : Type 0 where
  pub enabled : Bool
  pub path : Str
  pub port : ℤ

pub record TracingConfig : Type 0 where
  pub enabled : Bool
  pub provider : Str
  pub endpoint : Str
  pub sample_rate : ℕ

pub record ObservabilityConfig : Type 0 where
  pub logging : LoggingConfig
  pub metrics : MetricsConfig
  pub tracing : TracingConfig

-- `Config`
pub record Settings : Type 0 where
  pub server : ServerConfig
  pub chains : ChainsConfig
  pub cache : CacheConfig
  pub memcached : MemcachedCacheConfig
  pub security : SecurityConfig
  pub rate_limit : RateLimitConfig
  pub observability : ObservabilityConfig

abbrev pub second : ℕ
second = 10 ^ 9

-- `setDefaults`, over the zero values of the fields without a default.
unfoldable pub set_defaults : Settings
set_defaults = record {
  server = record {
    port = pos 8080;
    host = lit "0.0.0.0";
    read_timeout = pos (10 * second);
    write_timeout = pos (60 * second);
    idle_timeout = pos (120 * second);
    shutdown_timeout = pos (30 * second);
    max_request_size = pos (32 * 1024 * 1024);
  };
  chains = record { default = []; chains = [] };
  cache = record {
    kind = lit "filesystem";
    dir = lit "./cache";
    max_size = pos (1024 * 1024 * 1024);
    ttl = pos (24 * (3600 * second));
    cleanup_interval = pos (3600 * second);
    redis = record {
      addresses = lit "localhost:6379" ∷ [];
      password = [];
      db = pos 0;
      max_retries = pos 3;
      pool_size = pos 10;
      timeout = pos (5 * second);
      ttl = pos 0;
    };
  };
  memcached = record { servers = lit "localhost:11211" ∷ []; timeout = pos (5 * second) };
  security = record {
    cors = record {
      enabled = true;
      allowed_origins = lit "*" ∷ [];
      allowed_methods = lit "GET" ∷ lit "HEAD" ∷ lit "OPTIONS" ∷ [];
      allowed_headers = lit "Content-Type" ∷ lit "Authorization" ∷ [];
      expose_headers = [];
      max_age = pos 3600;
    };
    max_filename_len = pos 255;
    allowed_methods = [];
    trusted_proxies = [];
  };
  rate_limit = record {
    enabled = true;
    window_size = pos (10 * second);
    max_requests = pos 30;
    burst = pos 10;
  };
  observability = record {
    logging = record {
      level = lit "info";
      format = lit "json";
      output = lit "stdout";
      file_path = [];
    };
    metrics = record { enabled = true; path = lit "/metrics"; port = pos 9090 };
    tracing = record { enabled = false; provider = []; endpoint = []; sample_rate = 100 };
  };
}

-- The fields that `Validate` and the start of the program read.
unfoldable pub core : Settings → Config
core s = record {
  port = s.server.port;
  chains = s.chains;
  cache = s.cache;
  level = s.observability.logging.level;
}

-- The error of `ReadInConfig`, of which a file that is not found is none.
pub data ReadResult : Type 0 where
  file_read : ReadResult
  not_found : ReadResult
  unreadable : Error → ReadResult

-- `Load`, from the reading of the file on.
unfoldable pub load : (ReadResult → Settings → Result Settings) → ReadResult → Result Settings
load decode (unreadable e) = err (wrapped (lit "error reading config file") e)
load decode found = elim (decode found set_defaults) [
  | err e ↦ err (wrapped (lit "unable to decode config") e)
  | ok cfg ↦ elim (validate (core cfg)) [
    | some e ↦ err (wrapped (lit "invalid configuration") e)
    | none ↦ ok cfg
  ]
]
