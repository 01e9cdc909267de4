-- ===== src/Config/Startup.antt =====
-- What the program makes of a valid configuration.
use verus_gateway.Base.{
  ◌≡◌, ◌≢◌, ◌<◌, ◌⊎◌, ◌↔◌, refl, ◌∙◌, true, false, inl, inr, Option, none, some, List, [], ◌++◌,
  arith, nat_eq, list_eq, if◌then◌else◌, length, Bool-cases, Option-cases, ℕ_discrete, list_dec,
}
use verus_gateway.Base.Bytes.{Str, lit}
use verus_gateway.Domain.Errors.{plain, Result, ok, err}
use verus_gateway.Domain.Request.{is_empty}
use verus_gateway.Chain.{
  ChainConfig, ChainsConfig, Chain, Manager, entry, new_manager, new_chains, new_chain, first_id,
}
use verus_gateway.Chain.Lookup.{IsMap, entry-new_chains}
use verus_gateway.Http.Auth.Access.{Has, Has-cons, Has-nil}
use verus_gateway.Cache.State.{FilesystemCacheConfig}
use verus_gateway.Config.{Config, RedisCacheConfig, valid_cache_types, validate, initialize_cache}
use verus_gateway.Config.Valid.{is_empty-eq-false_iff, empty-nil, validate-IsValid}

cache_types :
    (kind : Str)
    → Has kind valid_cache_types
    → ((kind ≡ lit "filesystem") ⊎ (kind ≡ lit "redis"))
      ⊎ ((kind ≡ lit "memcached") ⊎ (kind ≡ lit "multi"))
unfolding valid_cache_types
cache_types kind h = elim ((Has-cons kind _ _).0 h) [
  | inl e ↦ inl (inl e)
  | inr h1 ↦ elim ((Has-cons kind _ _).0 h1) [
    | inl e ↦ inl (inr e)
    | inr h2 ↦ elim ((Has-cons kind _ _).0 h2) [
      | inl e ↦ inr (inl e)
      | inr h3 ↦ elim ((Has-cons kind _ _).0 h3) [
        | inl e ↦ inr (inr e)
        | inr h4 ↦ absurd (Has-nil kind h4)
      ]
    ]
  ]
]

-- What a constructor answers: a cache that is there is passed on, and an error is too.
abbrev pub passed_on {ℓ} : {A : Type ℓ} → Result A → Result (Option A)
passed_on (err e) = err e
passed_on (ok cache) = ok (some cache)

abbrev pub filesystem_settings : Config → FilesystemCacheConfig
filesystem_settings cfg = record {
  base_dir = cfg.cache.dir;
  max_size = cfg.cache.max_size;
  ttl = cfg.cache.ttl;
  cleanup_interval = cfg.cache.cleanup_interval;
}

module _ {ℓ} {A : Type ℓ} (new_filesystem : FilesystemCacheConfig → Result A)
    (new_redis : RedisCacheConfig → Result A) (cfg : Config) where
  refused_memcached :
      cfg.cache.kind ≡ lit "memcached"
      → initialize_cache new_filesystem new_redis cfg
        ≡ err (plain (lit "unsupported cache type: " ++ cfg.cache.kind))
  unfolding initialize_cache lit ℕ_discrete list_dec
  refused_memcached e = rw e refl

  refused_multi :
      cfg.cache.kind ≡ lit "multi"
      → initialize_cache new_filesystem new_redis cfg
        ≡ err (plain (lit "unsupported cache type: " ++ cfg.cache.kind))
  unfolding initialize_cache lit ℕ_discrete list_dec
  refused_multi e = rw e refl

  started_filesystem :
      cfg.cache.kind ≡ lit "filesystem"
      → initialize_cache new_filesystem new_redis cfg
        ≡ passed_on (new_filesystem (filesystem_settings cfg))
  unfolding initialize_cache lit ℕ_discrete list_dec
  started_filesystem e = rw e refl

  started_redis :
      cfg.cache.kind ≡ lit "redis"
      → initialize_cache new_filesystem new_redis cfg
        ≡ passed_on (new_redis (record cfg.cache.redis { ttl = cfg.cache.ttl }))
  unfolding initialize_cache lit ℕ_discrete list_dec
  started_redis e = rw e refl

  -- Of the cache types that `Validate` accepts, `memcached` and `multi` are refused at the start,
  -- whatever the constructors of the caches do; `filesystem` and `redis` give what their own
  -- constructor answers, on the settings for it with the time to live of the cache.
  pub initialize_cache-validated :
      validate cfg ≡ none
      → let answer = initialize_cache new_filesystem new_redis cfg in
        ((cfg.cache.kind ≡ lit "filesystem")
            × (answer ≡ passed_on (new_filesystem (filesystem_settings cfg)))
          ⊎ (cfg.cache.kind ≡ lit "redis")
            × (answer ≡ passed_on (new_redis (record cfg.cache.redis { ttl = cfg.cache.ttl }))))
        ⊎ (((cfg.cache.kind ≡ lit "memcached") ⊎ (cfg.cache.kind ≡ lit "multi"))
            × (answer ≡ err (plain (lit "unsupported cache type: " ++ cfg.cache.kind))))
  initialize_cache-validated h =
      elim (cache_types cfg.cache.kind ((validate-IsValid cfg).0 h).cache) [
        | inl (inl e) ↦ inl (inl (e, started_filesystem e))
        | inl (inr e) ↦ inl (inr (e, started_redis e))
        | inr (inl e) ↦ inr (inl e, refused_memcached e)
        | inr (inr e) ↦ inr (inr e, refused_multi e)
      ]

module _ (order : List (Str × Chain) → List (Str × Chain)) (c : ChainsConfig)
    (m : IsMap c.chains) where
  -- A chain is enabled, and the default chain is named nowhere or is an enabled one.
  abbrev pub Starts : Type 0
  Starts =
      (0 < length (new_chains c.chains))
      × ((c.default ≡ [])
          ⊎ ((cc : ChainConfig) × (entry c.default c.chains ≡ some cc) × (cc.enabled ≡ true)))

  default_entry :
      (cc : ChainConfig)
      → entry c.default c.chains ≡ some cc
      → entry c.default (new_chains c.chains)
        ≡ (if cc.enabled then some (new_chain c.default cc) else none)
  default_entry cc h = entry-new_chains c.default c.chains m ∙ rw h refl

  no_entry : entry c.default c.chains ≡ none → entry c.default (new_chains c.chains) ≡ none
  no_entry h = entry-new_chains c.default c.chains m ∙ rw h refl

  chains_of :
      (manager : Manager) → new_manager order c ≡ ok manager → 0 < length (new_chains c.chains)
  unfolding new_manager
  chains_of manager h = ground arith

  default_of :
      (manager : Manager)
      → new_manager order c ≡ ok manager
      → is_empty c.default ≡ false
      → entry c.default (new_chains c.chains) ≢ none
  unfolding new_manager
  default_of manager h n k = ground arith

  unnamed :
      0 < length (new_chains c.chains)
      → is_empty c.default ≡ true
      → new_manager order c
        ≡ ok (record {
          chains = new_chains c.chains;
          default_chain = first_id (order (new_chains c.chains));
        })
  unfolding new_manager
  unnamed h e = ground arith

  named :
      (chain : Chain)
      → 0 < length (new_chains c.chains)
      → is_empty c.default ≡ false
      → entry c.default (new_chains c.chains) ≡ some chain
      → new_manager order c
        ≡ ok (record { chains = new_chains c.chains; default_chain = c.default })
  unfolding new_manager
  named chain h e k = ground arith

  -- A manager is made exactly where a chain is enabled, and the default chain is named nowhere or is an
  -- enabled one. `Validate` asks less: its default chain may be a disabled one, and all may be.
  pub new_manager-ok_iff : ((manager : Manager) × (new_manager order c ≡ ok manager)) ↔ Starts
  new_manager-ok_iff = (to, from)
    where
      to : (manager : Manager) × (new_manager order c ≡ ok manager) → Starts
      to (manager, h) = elim (Bool-cases (is_empty c.default)) [
        | inl e ↦ (chains_of manager h, inl (empty-nil c.default e))
        | inr n ↦ elim (Option-cases (entry c.default c.chains)) [
          | inl z ↦ absurd (default_of manager h n (no_entry z))
          | inr (cc', z) ↦ elim (Bool-cases cc'.enabled) [
            | inl on ↦ (chains_of manager h, inr (cc', z, on))
            | inr off ↦ absurd (default_of manager h n (default_entry cc' z ∙ rw off refl))
          ]
        ]
      ]

      from : Starts → (manager : Manager) × (new_manager order c ≡ ok manager)
      from (many, d) = elim (Bool-cases (is_empty c.default)) [
        | inl e ↦ (_, unnamed many e)
        | inr n ↦ elim d [
          | inl e ↦ absurd ((is_empty-eq-false_iff c.default).0 n e)
          | inr (cc', z, on) ↦
              (_, named (new_chain c.default cc') many n (default_entry cc' z ∙ rw on refl))
        ]
      ]
