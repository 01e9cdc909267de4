-- ===== src/Tests/Starting.antt =====
-- The administration and the main program.
use mathlib.Core.List.{Permᴰ, lookup}
use verus_gateway.Base.{
  ℕ, ◌^◌, ◌<◌, ◌≡◌, ◌≢◌, ◌⊎◌, ◌↔◌, refl, true, false, Option, none, some, List, [], ◌∷◌, length,
  All, list_eq, nat_eq, ℕ_discrete, map,
}
use verus_gateway.Base.Bytes.{Str}
use verus_gateway.Base.Int.{pos}
use verus_gateway.Domain.Errors.{Error, plain, Result, ok, err}
use verus_gateway.Cache.State.{FilesystemCacheConfig}
use verus_gateway.Rpc.{Client}
use verus_gateway.Chain.{
  ChainConfig, ChainsConfig, Chain, Manager, new_chain, new_chains, new_manager, entry, ids,
  first_id,
}
use verus_gateway.Chain.Lookup.{IsMap}
use verus_gateway.Config.{RedisCacheConfig, validate, initialize_cache}
use verus_gateway.Config.Startup.{Starts}
use verus_gateway.Config.Valid.{IsComplete}
use verus_gateway.Config.Settings.{Settings, set_defaults, core}
use verus_gateway.Config.Settings.Defaults.{validate-defaults_iff}
use verus_gateway.Observability.Logger
use verus_gateway.Observability.Logger.{Logger, stdout}
use verus_gateway.Http.AdminHandler.{
  ready, json_response, ready_json, unhealthy_json, chains_json, list_chains_response,
}
use verus_gateway.Http.AdminHandler.Readiness.{HasHealthy, Reports, ready_lem}
use verus_gateway.Http.AdminHandler.Listing.{item, defaults, list_chains_response_lem}
use verus_gateway.Gateway.{Shutdown, signal_received, main, stopped, Stop, logger_config}
use verus_gateway.Gateway.Ending.{main-stopped_iff}

abbrev chain_config : ChainConfig
chain_config = record {
  name = [];
  enabled = true;
  rpc_url = b'u' ∷ [];
  rpc_user = b'u' ∷ [];
  rpc_password = b'p' ∷ [];
  rpc_timeout = pos (10 ^ 9);
  tls_insecure = false;
  max_retries = pos 3;
  retry_delay = pos 0;
}

abbrev chains_config : ChainsConfig
chains_config = record { default = []; chains = (b'v' ∷ [], chain_config) ∷ [] }

validate-defaults_iff_example :
    (validate (core (record set_defaults { chains = chains_config })) ≡ none) ↔ (
      (0 < length chains_config.chains)
      × All (λ row. row.1.enabled ≡ true → IsComplete row.1) chains_config.chains
      × ((chains_config.default ≡ []) ⊎ (entry [] chains_config.chains ≢ none)))
validate-defaults_iff_example = validate-defaults_iff chains_config

abbrev chain : Chain
chain = new_chain (b'v' ∷ []) chain_config

abbrev manager : Manager
manager = record { chains = (b'v' ∷ [], chain) ∷ []; default_chain = b'v' ∷ [] }

abbrev in_order : List (Str × Chain) → List (Str × Chain)
in_order chains = chains

abbrev as_started : List Str → List Str
as_started l = l

abbrev down : Str → Client → Option Error
down id c = some (plain [])

one_id : Permᴰ (ids manager.chains) (ids manager.chains)
unfolding ids
one_id = Permᴰ.cons refl Permᴰ.nil

ready_lem_example :
    ((ready in_order down as_started [] manager ≡ json_response 200 (ready_json []))
      × HasHealthy in_order down as_started manager)
    ⊎ ((errors : List (Str × Str)) × (ready in_order down as_started [] manager
          ≡ json_response 503 (unhealthy_json errors))
        × Reports in_order down as_started manager errors
        × ¬ HasHealthy in_order down as_started manager)
ready_lem_example = ready_lem in_order down as_started manager (Permᴰ.cons refl Permᴰ.nil) one_id []

new_manager_run : new_manager in_order chains_config ≡ ok manager
unfolding new_manager new_chains first_id ℕ_discrete
new_manager_run = refl

chains-IsMap : IsMap chains_config.chains
unfolding entry lookup
chains-IsMap = (refl, tt)

one_chain : Permᴰ (new_chains chains_config.chains) (new_chains chains_config.chains)
unfolding new_chains
one_chain = Permᴰ.cons refl Permᴰ.nil

list_chains_response_lem_example :
    (list_chains_response in_order manager
      ≡ json_response 200 (
          chains_json
            (map (item manager) manager.chains)
            (length (map (item manager) manager.chains))))
    × (length (map (item manager) manager.chains) ≡ length (new_chains chains_config.chains))
    × (defaults (map (item manager) manager.chains) ≡ 1)
list_chains_response_lem_example =
    list_chains_response_lem in_order chains_config manager chains-IsMap one_chain new_manager_run

abbrev shutdown : Shutdown
shutdown = record { event = signal_received; begin = 10; returned = 11; failure = none }

abbrev new_logger : Logger.Config → Result (Logger ℕ)
new_logger c =
    ok (record { level = 1; output = stdout; console = none; caller = true; fields = [] })

abbrev new_filesystem : FilesystemCacheConfig → Result ℕ
new_filesystem c = ok 0

abbrev no_redis : RedisCacheConfig → Result ℕ
no_redis c = err (plain [])

abbrev configured : Settings
configured = record set_defaults { chains = chains_config }

main-stopped_iff_example :
    ((stop : Stop) × (main new_logger new_filesystem no_redis in_order false
          (ok configured)
          shutdown
        ≡ stopped stop))
    ↔ (((logger : Logger ℕ) × (new_logger (logger_config configured.observability.logging)
            ≡ ok logger))
        × ((cache : Option ℕ) × (initialize_cache new_filesystem no_redis (core configured)
              ≡ ok cache))
        × Starts in_order chains_config chains-IsMap)
main-stopped_iff_example =
    main-stopped_iff new_logger new_filesystem no_redis in_order configured shutdown chains-IsMap
