-- ===== src/Http/AdminHandler.antt =====
-- internal/http/handler/admin_handler.go. The results of the checks stand in the order in which a `range`
-- goes through them; the page of the metrics is promhttp's.
pub mod Readiness
pub mod Listing
use verus_gateway.Base.{
  ℕ, zero, suc, ◌+◌, ◌≡◌, refl, Bool, true, false, Option, none, some, List, [], ◌∷◌, ◌++◌, arith,
  ◌==◌, list_eq, nat_eq, if◌then◌else◌, length,
}
use verus_gateway.Base.Bytes.{Str, lit}
use verus_gateway.Base.Int.{ℤ}
use verus_gateway.Domain.Errors.{Error, Result, ok, err, error_text}
use verus_gateway.Domain.Interfaces.{Cache, CacheStats}
use verus_gateway.Rpc.{Client}
use verus_gateway.Chain.{
  Chain, Manager, put, list_chains, get_default_chain_id, get_chain_info, health_check_all,
}
use verus_gateway.Service.{FileService, get_cache_stats, clear_cache, delete_from_cache}
use verus_gateway.Observability.Metrics.{Metrics, update_cache_stats}

-- An element of the list of chains.
pub record ChainItem : Type 0 where
  pub id : Str
  pub name : Str
  pub default : Bool

-- The JSON objects of the answers.
pub data AdminBody : Type 0 where
  healthy_json : Str → AdminBody
  unhealthy_json : List (Str × Str) → AdminBody
  ready_json : Str → AdminBody
  chains_json : List ChainItem → ℕ → AdminBody
  stats_json : CacheStats → AdminBody
  failure_json : Str → Str → AdminBody
  message_json : Str → AdminBody
  metrics_page : Option Metrics → AdminBody

pub record AdminResponse : Type 0 where
  pub status : ℕ
  pub headers : List (Str × Str)
  pub body : AdminBody

abbrev pub json_response : ℕ → AdminBody → AdminResponse
json_response status body = record {
  status = status;
  headers = (lit "Content-Type", lit "application/json") ∷ [];
  body = body;
}

-- What `Err.Error()` tells in an answer of status 500.
abbrev pub failure : Str → Error → AdminResponse
failure text e = json_response 500 (failure_json text (error_text e))

unfoldable pub health : Str → AdminResponse
health version = json_response 200 (healthy_json version)

-- The loop over the results: whether a chain is healthy, and the errors of the others.
unfoldable pub tally : List (Str × Option Error) → Bool → List (Str × Str) → Bool × List (Str × Str)
tally [] healthy errors = (healthy, errors)
tally ((id, result) ∷ results) healthy errors =
    tally results (elim result [ none ↦ true | some e ↦ healthy ])
      (elim result [ none ↦ errors | some e ↦ put id (error_text e) errors ])

-- The loop of `ListChains`.
unfoldable pub chain_items : Manager → List Str → List ChainItem
chain_items m [] = []
chain_items m (id ∷ ids) =
    let rest = chain_items m ids in
    elim (get_chain_info m id) [
      | err e ↦ rest
      | ok chain ↦
          record { id = chain.id; name = chain.name; default = chain.id == get_default_chain_id m }
          ∷ rest
    ]

module _ (order : List (Str × Chain) → List (Str × Chain)) where
  -- `Ready`
  unfoldable pub ready :
      (Str → Client → Option Error) → (List Str → List Str) → Str → Manager → AdminResponse
  unfolding tally
  ready get_info finish version m =
      let (healthy, errors) = tally (health_check_all order get_info finish m) false [] in
      if healthy
      then json_response 200 (ready_json version)
      else json_response 503 (unhealthy_json errors)

  -- `ListChains`
  unfoldable pub list_chains_response : Manager → AdminResponse
  unfolding chain_items
  list_chains_response m =
      let items = chain_items m (list_chains order m) in
      json_response 200 (chains_json items (length items))

module _ (C : Cache) (io : C.Call) (s : FileService C) where
  -- `GetCacheStats`
  unfoldable pub cache_stats_response : AdminResponse
  cache_stats_response = elim (get_cache_stats C io s) [
    | err e ↦ failure (lit "failed to get cache stats") e
    | ok stats ↦ json_response 200 (stats_json stats)
  ]

  -- `ClearCache`
  unfoldable pub clear_cache_response : FileService C × AdminResponse
  clear_cache_response =
      let (s', e) = clear_cache C io s in
      (
        s',
        elim e [
          | some e ↦ failure (lit "failed to clear cache") e
          | none ↦ json_response 200 (message_json (lit "cache cleared successfully"))
        ],
      )

  -- `DeleteCacheEntry`
  unfoldable pub delete_cache_entry_response : Str → FileService C × AdminResponse
  delete_cache_entry_response key =
      let (s', e) = delete_from_cache C io key s in
      (
        s',
        elim e [
          | some e ↦ failure (lit "failed to delete cache entry") e
          | none ↦
              json_response 200
                (message_json (lit "cache entry " ++ (key ++ lit " deleted successfully")))
        ],
      )

  -- `PrometheusMetrics`, and the metrics after it; without metrics it serves promhttp's page alone.
  unfoldable pub prometheus_metrics : Option Metrics → Option Metrics × AdminResponse
  prometheus_metrics metrics =
      let updated : Option Metrics = elim metrics [
        | none ↦ none
        | some m ↦ elim (get_cache_stats C io s) [
          | err e ↦ some m
          | ok stats ↦ some (update_cache_stats stats.size stats.items m)
        ]
      ] in
      (updated, record { status = 200; headers = []; body = metrics_page updated })
