-- ===== src/Gateway.antt =====
-- cmd/gateway/main.go: the start of the program and its end. Reaching a result means that the program exits.
pub mod Ending
use verus_gateway.Base.{
  ℕ, zero, suc, ◌+◌, ◌≤◌, ◌≡◌, refl, Bool, true, false, Option, none, some, List, [], ◌∷◌, ◌++◌,
  arith, ltb, if◌then◌else◌,
}
use verus_gateway.Base.Bytes.{Str, lit}
use verus_gateway.Base.Int.{ℤ, pos, negsuc, pos_part}
use verus_gateway.Domain.Errors.{Error, Result, ok, err}
use verus_gateway.Cache.State.{FilesystemCacheConfig}
use verus_gateway.Chain.{Chain, ChainConfig, Manager, new_manager}
use verus_gateway.Config.{RedisCacheConfig, initialize_cache}
use verus_gateway.Config.Settings.{Settings, LoggingConfig, core}
use verus_gateway.Observability.Logger
use verus_gateway.Observability.Logger.{Logger}

-- The number of enabled chains that is printed.
unfoldable pub enabled_chains : List (Str × ChainConfig) → ℕ
enabled_chains [] = 0
enabled_chains ((id, chain) ∷ chains) = (if chain.enabled then 1 else 0) + enabled_chains chains

-- Why a context is done.
pub data ContextError : Type 0 where
  deadline_exceeded : ContextError
  canceled : ContextError

-- When and why a context is done that `WithTimeout` made, if it is cancelled at a time or not at all.
unfoldable pub context_done : ℕ → ℤ → Option ℕ → ℕ × ContextError
context_done begin timeout cancelled =
    let deadline = begin + pos_part timeout in
    elim cancelled [
      | none ↦ (deadline, deadline_exceeded)
      | some t ↦ if ltb t deadline then (t, canceled) else (deadline, deadline_exceeded)
    ]

-- What the program waits for before it shuts down.
pub data Event : Type 0 where
  signal_received : Event
  server_failed : Error → Event

pub data FinalLine : Type 0 where
  timeout_exceeded : FinalLine
  stopped_gracefully : FinalLine
  shutdown_complete : FinalLine

-- The deferred calls of `main`, which run in the reverse order once it returns.
pub data Deferred : Type 0 where
  cancel_shutdown : Deferred
  stop_signals : Deferred
  close_chain_manager : Deferred
  close_cache : Deferred

-- The last lines of the log and the time that they are written at, and the calls that follow them.
pub record Stop : Type 0 where
  pub event : Event
  pub shutdown_error : Option Error
  pub final : List FinalLine
  pub logged_at : ℕ
  pub deferred : List Deferred

-- When the program shuts down, and when and how the server's `Shutdown` returns.
pub record Shutdown : Type 0 where
  pub event : Event
  pub begin : ℕ
  pub returned : ℕ
  pub failure : Option Error

-- The end of `main`, with or without a cache. The context is cancelled by a deferred call only, which
-- runs after the wait.
unfoldable pub shut_down : ℤ → Bool → Shutdown → Stop
unfolding context_done
shut_down shutdown_timeout has_cache s =
    let (done, reason) = context_done s.begin shutdown_timeout none in
    record {
      event = s.event;
      shutdown_error = s.failure;
      final =
          elim reason [ deadline_exceeded ↦ timeout_exceeded | canceled ↦ stopped_gracefully ]
          ∷ shutdown_complete
          ∷ [];
      logged_at = if ltb s.returned done then done else s.returned;
      deferred =
          cancel_shutdown
          ∷ stop_signals
          ∷ close_chain_manager
          ∷ (if has_cache then close_cache ∷ [] else []);
    }

abbrev pub has_cache {ℓ} : {A : Type ℓ} → Option A → Bool
has_cache none = false
has_cache (some cache) = true

-- `os.Exit(0)` after the version, a `Fatal` line with its error, or the end of a shutdown.
pub data Exit : Type 0 where
  version_shown : Exit
  fatal : Str → Error → Exit
  stopped : Stop → Exit

abbrev pub logger_config : LoggingConfig → Logger.Config
logger_config c = record {
  level = c.level;
  format = c.format;
  output = c.output;
  file_path = c.file_path;
}

module _ {ℓ κ} {A : Type ℓ} {L : Type κ} (new_logger : Logger.Config → Result (Logger L))
    (new_filesystem : FilesystemCacheConfig → Result A) (new_redis : RedisCacheConfig → Result A)
    (order : List (Str × Chain) → List (Str × Chain)) where
  -- `main`, after the flags, with what `Load` gives.
  unfoldable pub main : Bool → Result Settings → Shutdown → Exit
  unfolding shut_down
  main show_version loaded s = if show_version then version_shown else elim loaded [
    | err e ↦ fatal (lit "Failed to load configuration") e
    | ok cfg ↦ elim (new_logger (logger_config cfg.observability.logging)) [
      | err e ↦ fatal (lit "Failed to initialize logger") e
      | ok logger ↦ elim (initialize_cache new_filesystem new_redis (core cfg)) [
        | err e ↦ fatal (lit "Failed to initialize cache") e
        | ok cache ↦ elim (new_manager order cfg.chains) [
          | err e ↦ fatal (lit "Failed to initialize chain manager") e
          | ok manager ↦ stopped (shut_down cfg.server.shutdown_timeout (has_cache cache) s)
        ]
      ]
    ]
  ]
