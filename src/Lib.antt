-- ===== src/Lib.antt =====
-- Verification of verus-gateway, an HTTP gateway that serves files kept on Verus block chains. A request
-- names a chain, a transaction and a viewing key. The service checks it, asks the cache, and otherwise
-- has a node decrypt the data over JSON-RPC, decompresses them, detects their type, returns the file
-- and leaves it to a goroutine to cache it. Middlewares in front limit the rate of each client, check
-- API keys and answer for origins; the server itself puts others in front, for panics, identifiers,
-- logging, metrics, a time-out and headers. Other routes tell whether the gateway is ready, list its
-- chains and administer the cache.
--
-- The files and the code that each models:
--   Domain/Errors, File, Request, Interfaces   internal/domain: errors.go, file.go, interfaces.go
--   Crypto, Hex      internal/crypto/decrypt.go, and encoding/hex as it and the cache call it
--   Storage          internal/storage: decompressor.go, detector.go
--   Cache            internal/cache. State, Upkeep and Filesystem are filesystem.go, Redis is redis.go; Disk
--                    is the directory of the cache, and World what the operating system, SHA-256 and
--                    encoding/json answer
--   Rpc              pkg/verusrpc/client.go, with the texts that are posted in Message
--   Chain            internal/chain/manager.go, with the records of internal/config/config.go
--   Service          internal/service/file_service.go, over any implementation of the cache's interface
--   Config           internal/config/config.go, and initializeCache of cmd/gateway/main.go; Settings is the
--                    whole configuration with its defaults and its loading
--   Observability    internal/observability: metrics/metrics.go, with the collectors of prometheus in Collectors,
--                    and logger/logger.go
--   Http             internal/http. RateLimit, Auth, Cors, Audit are the files of middleware/ with these names,
--                    Middleware is middleware.go and sizelimit.go; FileHandler and AdminHandler are the files
--                    of handler/, with FileHandler.Serving for what they write; Server is server/server.go, and
--                    Server.Files puts the handlers of files and the service behind its middlewares
--   Gateway          cmd/gateway/main.go
--   FilePath         path/filepath, as the detector and the cache call it
--   Base             lists, bytes, UTF-8, int64 and decimal texts
--   Tests            the theorems at concrete inputs
--
-- Definitions have the names of the Go functions, in snake case. A method that changes its receiver
-- returns the new state beside its result. Errors are the data type `Error`, with the domain error's
-- fields and the texts of `fmt.Errorf`. Strings are lists of bytes. Arithmetic on int64 wraps at 64
-- bits (`add64`, `sub64`); times are natural numbers of nanoseconds since an epoch, and their
-- differences are not cut off at the ends of time.Duration. A critical section under a mutex is one step.
-- The disk is a list of paths with their content and time; a call's context, clock and failures are the
-- record `Io`, and a goroutine's work is a value (`Pending`, `Signal`) that a later step carries out.
--
-- No recursion needs fuel without an account of it: the bubble sort makes as many rounds as the Go
-- loops do, and the loop of `Call` has as many turns as `maxRetries` allows. All other functions are structural.
--
-- A middleware is a function from handlers to handlers, as in the source. A handler takes a request and a
-- response, which also carries the log and the metrics, and returns or panics. The mutex of the
-- filesystem cache makes each of its operations one step, so a list of operations stands for any
-- interleaving of requests and cleanups. The goroutines of HealthCheckAll end in any order.
--
-- Arguments of the model are what the source takes from other code: SHA-256 and JSON (`Codec`), the
-- gzip reader, `http.DetectContentType`, the Redis client, the answers of a node, viper, the router, CORS and
-- compression of chi, and the order of a range over a map. The samples of prometheus are kept as its
-- documentation says, as exact numbers.
--
-- Not modelled: the protocol of Redis, listening and signals (I/O), the page of the metrics (promhttp),
-- the form and the times of log lines, and the floating-point values of rates, which are pairs.
pub mod Base
pub mod Domain
pub mod Hex
pub mod Crypto
pub mod FilePath
pub mod Storage
pub mod Cache
pub mod Rpc
pub mod Chain
pub mod Config
pub mod Service
pub mod Http
pub mod Observability
pub mod Gateway
pub mod Tests
