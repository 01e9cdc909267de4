-- ===== src/Chain.antt =====
-- internal/chain/manager.go: the configured chains and their clients. The map `chains` is a list in which
-- no ID stands twice; the order in which a `range` goes through a map is the argument `order`.
pub mod Lookup
pub mod Checks
use mathlib.Core.List.{lookup}
use verus_gateway.Base.{
  ℕ, zero, suc, ◌+◌, ◌≡◌, refl, Bool, true, false, not, Option, none, some, List, [], ◌∷◌, ◌++◌,
  arith, ◌==◌, list_eq, nat_eq, length, if◌then◌else◌,
}
use verus_gateway.Base.Bytes.{Str, lit}
use verus_gateway.Base.Int.{ℤ}
use verus_gateway.Domain.Errors.{Error, plain, Result, ok, err, error_text, new_chain_error}
use verus_gateway.Domain.Request.{is_empty}
use verus_gateway.Rpc.{Client, Config, new_client}

-- internal/config/config.go
pub record ChainConfig : Type 0 where
  pub name : Str
  pub enabled : Bool
  pub rpc_url : Str
  pub rpc_user : Str
  pub rpc_password : Str
  pub rpc_timeout : ℤ
  pub tls_insecure : Bool
  pub max_retries : ℤ
  pub retry_delay : ℤ

pub record ChainsConfig : Type 0 where
  pub default : Str
  pub chains : List (Str × ChainConfig)

pub record Chain : Type 0 where
  pub id : Str
  pub name : Str
  pub config : ChainConfig
  pub client : Client

pub record Manager : Type 0 where
  pub chains : List (Str × Chain)
  pub default_chain : Str

abbrev pub client_config : ChainConfig → Config
client_config c = record {
  url = c.rpc_url;
  user = c.rpc_user;
  password = c.rpc_password;
  timeout = c.rpc_timeout;
  tls_insecure = c.tls_insecure;
  max_retries = c.max_retries;
  retry_delay = c.retry_delay;
}

abbrev pub new_chain : Str → ChainConfig → Chain
new_chain id cfg = record {
  id = id;
  name = cfg.name;
  config = cfg;
  client = new_client (client_config cfg);
}

-- The loop over the configured chains.
unfoldable pub new_chains : List (Str × ChainConfig) → List (Str × Chain)
new_chains [] = []
new_chains ((id, cfg) ∷ rest) =
    let chains = new_chains rest in
    if not cfg.enabled then chains else (id, new_chain id cfg) ∷ chains

-- The entry of a map under a key.
unfoldable pub entry {ℓ} : {A : Type ℓ} → Str → List (Str × A) → Option A
unfolding lookup
entry id chains = lookup list_eq.dec id chains

-- The first ID that a `range` meets.
unfoldable pub first_id : List (Str × Chain) → Str
first_id [] = []
first_id ((id, chain) ∷ rest) = id

module _ (order : List (Str × Chain) → List (Str × Chain)) where
  unfoldable pub new_manager : ChainsConfig → Result Manager
  unfolding first_id
  new_manager cfg =
      let chains = new_chains cfg.chains in
      if length chains == 0
      then err (plain (lit "no chains configured"))
      else if is_empty cfg.default
      then ok (record { chains = chains; default_chain = first_id (order chains) })
      else elim (entry cfg.default chains) [
        | none ↦ err (plain (lit "default chain " ++ (cfg.default ++ lit " not found")))
        | some chain ↦ ok (record { chains = chains; default_chain = cfg.default })
      ]

unfoldable pub get_chain_info : Manager → Str → Result Chain
get_chain_info m chain_id = elim (entry chain_id m.chains) [
  | none ↦ err (new_chain_error chain_id (lit "chain not found"))
  | some chain ↦ ok chain
]

unfoldable pub get_chain : Manager → Str → Result Client
get_chain m chain_id = elim (entry chain_id m.chains) [
  | none ↦ err (new_chain_error chain_id (lit "chain not found"))
  | some chain ↦ ok chain.client
]

unfoldable pub get_default_chain : Manager → Result Client
get_default_chain m = get_chain m m.default_chain

-- `HealthCheck`, of a client whose `GetInfo` fails with an error or does not.
unfoldable pub health_check : (Client → Option Error) → Manager → Str → Option Error
health_check get_info m chain_id = elim (get_chain m chain_id) [
  | err e ↦ some e
  | ok client ↦ elim (get_info client) [
    | some e ↦ some (new_chain_error chain_id (lit "health check failed: " ++ error_text e))
    | none ↦ none
  ]
]

-- `m[key] = value`
unfoldable pub put {ℓ} : {A : Type ℓ} → Str → A → List (Str × A) → List (Str × A)
put key value [] = (key, value) ∷ []
put key value ((k, v) ∷ rest) = if key == k then (k, value) ∷ rest else (k, v) ∷ put key value rest

unfoldable pub ids : List (Str × Chain) → List Str
ids [] = []
ids ((id, chain) ∷ rest) = id ∷ ids rest

-- What the goroutines write that check these chains, in the order in which they finish.
unfoldable pub write_results :
    (Str → Option Error) → List Str → List (Str × Option Error) → List (Str × Option Error)
unfolding put
write_results check [] results = results
write_results check (id ∷ rest) results = write_results check rest (put id (check id) results)

-- The errors of the clients' `Close`, of which the first one that is met counts.
unfoldable pub close_loop :
    (Client → Option Error) → List (Str × Chain) → Option Error → Option Error
close_loop close [] first_error = first_error
close_loop close ((id, chain) ∷ rest) first_error =
    close_loop close rest (elim (close chain.client) [
      | none ↦ first_error
      | some e ↦ elim first_error [ none ↦ some e | some first ↦ some first ]
    ])

module _ (order : List (Str × Chain) → List (Str × Chain)) where
  unfoldable pub list_chains : Manager → List Str
  unfolding ids
  list_chains m = ids (order m.chains)

  -- `HealthCheckAll`: `get_info` may answer otherwise for each chain, and `finish` is the order in which
  -- the goroutines come to their end.
  unfoldable pub health_check_all :
      (Str → Client → Option Error) → (List Str → List Str) → Manager → List (Str × Option Error)
  unfolding ids write_results
  health_check_all get_info finish m =
      write_results (λ id. health_check (get_info id) m id) (finish (ids (order m.chains))) []

  -- `Close`, over the clients' method.
  unfoldable pub close : (Client → Option Error) → Manager → Option Error
  unfolding close_loop
  close close_client m = close_loop close_client (order m.chains) none

unfoldable pub get_default_chain_id : Manager → Str
get_default_chain_id m = m.default_chain
