-- ===== src/Gateway/Ending.antt =====
-- When the gateway comes up, and how it goes down.
use verus_gateway.Base.{
  ℕ, ◌+◌, ◌≤◌, ◌≡◌, ◌⊎◌, ◌↔◌, refl, Bool, false, inl, inr, Option, List, [], ◌∷◌, arith, length,
}
use verus_gateway.Base.Bytes.{Str}
use verus_gateway.Base.Int.{pos}
use verus_gateway.Domain.Errors.{Result, Result-cases, ok}
use verus_gateway.Cache.State.{FilesystemCacheConfig}
use verus_gateway.Chain.{Chain, ChainConfig, Manager, new_manager, new_chains}
use verus_gateway.Chain.Lookup.{IsMap}
use verus_gateway.Config.{RedisCacheConfig, initialize_cache}
use verus_gateway.Config.Settings.{Settings, core}
use verus_gateway.Config.Startup.{Starts, new_manager-ok_iff}
use verus_gateway.Observability.Logger
use verus_gateway.Observability.Logger.{Logger}
use verus_gateway.Gateway.{
  Exit, stopped, Stop, Shutdown, timeout_exceeded, shutdown_complete, has_cache, shut_down,
  context_done, logger_config, main, enabled_chains,
}

enabled_chains_lem : (l : List (Str × ChainConfig)) → enabled_chains l ≡ length (new_chains l)
unfolding enabled_chains new_chains
enabled_chains_lem [] = refl
enabled_chains_lem ((id, cfg) ∷ l) = ground (arith, enabled_chains_lem l)

-- The last lines of the log come when the shutdown time-out is over, or when `Shutdown` returns after
-- that, and in each case they say that the time-out was exceeded: also where the server has stopped at
-- once.
shut_down_lem :
    (timeout : ℕ) (with_cache : Bool) (s : Shutdown)
    → let stop = shut_down (pos timeout) with_cache s in
      (stop.final ≡ timeout_exceeded ∷ shutdown_complete ∷ [])
      × (s.begin + timeout ≤ stop.logged_at)
      × (s.returned ≤ stop.logged_at)
      × ((stop.logged_at ≡ s.begin + timeout) ⊎ (stop.logged_at ≡ s.returned))
unfolding shut_down context_done
shut_down_lem timeout with_cache s = ground arith

module _ {ℓ κ} {A : Type ℓ} {L : Type κ} (new_logger : Logger.Config → Result (Logger L))
    (new_filesystem : FilesystemCacheConfig → Result A) (new_redis : RedisCacheConfig → Result A)
    (order : List (Str × Chain) → List (Str × Chain)) (cfg : Settings) (s : Shutdown) where
  abbrev exit : Exit
  exit = main new_logger new_filesystem new_redis order false (ok cfg) s

  main-serves :
      (logger : Logger L) (cache : Option A) (manager : Manager)
      → new_logger (logger_config cfg.observability.logging) ≡ ok logger
      → initialize_cache new_filesystem new_redis (core cfg) ≡ ok cache
      → new_manager order cfg.chains ≡ ok manager
      → exit ≡ stopped (shut_down cfg.server.shutdown_timeout (has_cache cache) s)
  unfolding main
  main-serves logger cache manager l c k = rw (main, l, c, k) refl

  main-parts :
      (stop : Stop)
      → exit ≡ stopped stop
      → ((logger : Logger L) × (new_logger (logger_config cfg.observability.logging) ≡ ok logger))
        × ((cache : Option A) × (initialize_cache new_filesystem new_redis (core cfg) ≡ ok cache))
        × ((manager : Manager) × (new_manager order cfg.chains ≡ ok manager))
  unfolding main
  main-parts stop h = elim (Result-cases (new_logger (logger_config cfg.observability.logging))) [
    | inr (e, k) ↦ absurd (ground arith)
    | inl (logger, k) ↦ elim (Result-cases (initialize_cache new_filesystem new_redis (core cfg))) [
      | inr (e, l) ↦ absurd (ground arith)
      | inl (cache, l) ↦ elim (Result-cases (new_manager order cfg.chains)) [
        | inr (e, n) ↦ absurd (ground arith)
        | inl (manager, n) ↦ ((logger, k), (cache, l), (manager, n))
      ]
    ]
  ]

  -- The gateway with a loaded configuration serves until a signal or a failure of its server, exactly if its logger and
  -- its cache can be made, a chain is enabled, and the default chain is named nowhere or is enabled.
  pub main-stopped_iff :
      (m : IsMap cfg.chains.chains)
      → ((stop : Stop) × (main new_logger new_filesystem new_redis order false (ok cfg) s
            ≡ stopped stop))
        ↔ (((logger : Logger L) × (new_logger (logger_config cfg.observability.logging)
                ≡ ok logger))
            × ((cache : Option A) × (initialize_cache new_filesystem new_redis (core cfg)
                  ≡ ok cache))
            × Starts order cfg.chains m)
  main-stopped_iff m = (
    λ (stop, h).
        let (logger, cache, manager) = main-parts stop h in
        (logger, cache, (new_manager-ok_iff order cfg.chains m).0 manager),
    λ ((logger, l), (cache, c), starts).
        let (manager, k) = (new_manager-ok_iff order cfg.chains m).1 starts in
        (
          shut_down cfg.server.shutdown_timeout (has_cache cache) s,
          main-serves logger cache manager l c k,
        ),
  )
