-- ===== src/Service.antt =====
-- internal/service/file_service.go. The cache is any implementation `C` of the interface; the RPC client's
-- method `DecryptData` is the argument `rpc`, as what a chain's client answers in the course of a call.
pub mod Fetching
pub mod Caching
pub mod Ended
pub mod Refusing
use verus_gateway.Base.{
  ℕ, zero, suc, ◌+◌, ◌*◌, ◌^◌, ◌≡◌, refl, Bool, true, false, not, ◌&&◌, Option, none, some, List,
  [], ◌∷◌, ◌++◌, arith, if◌then◌else◌,
}
use verus_gateway.Base.Bytes.{Bytes, Str, lit}
use verus_gateway.Base.Int.{ℤ, pos}
use verus_gateway.Domain.Errors.{Error, plain, Result, ok, err, ◌>>=◌}
use verus_gateway.Domain.File.{File, FileMetadata}
use verus_gateway.Domain.Interfaces.{Cache, CacheStats}
use verus_gateway.Domain.Request.{FileRequest, validate, cache_key, is_empty}
use verus_gateway.Chain.{Manager, get_chain, get_default_chain}
use verus_gateway.Rpc.{Client}
use verus_gateway.Crypto.{decrypt_data}
use verus_gateway.Storage.Decompressor.{
  Decompressor, GzipReader, new_decompressor, must_decompress, decompress,
}
use verus_gateway.Storage.Detector.{detect_type}

-- No cache is nil. The detector has no state.
pub record FileService (C : Cache) : Type 0 where
  pub chain_manager : Manager
  pub cache : Option C.State
  pub decompressor : Decompressor

-- The arguments of the `Set` that a goroutine makes after the request.
pub record Pending : Type 0 where
  pub key : Str
  pub file : File
  pub ttl : ℤ

-- `getClient`
unfoldable pub get_client : Manager → Str → Result Client
get_client m chain_id = if is_empty chain_id then get_default_chain m else get_chain m chain_id

-- The content of a file: the data, or what it is decompressed to if that succeeds.
unfoldable pub content_of : (Bytes → GzipReader) → Decompressor → Bytes → Bytes
content_of gunzip d encrypted_data = elim (decompress gunzip d encrypted_data) [
  | err e ↦ encrypted_data
  | ok content ↦ content
]

module _ (C : Cache) where
  -- `NewFileService`
  unfoldable pub new_file_service : Manager → Option C.State → FileService C
  new_file_service m cache = record {
    chain_manager = m;
    cache = cache;
    decompressor = new_decompressor (pos (100 * 1024 * 1024));
  }

  -- The cache's answer to a request, and the cache after it; it is not asked where the request or
  -- the configuration does without it.
  unfoldable pub look_up : C.Call → FileRequest → Option C.State → Option C.State × Option File
  look_up io req none = (none, none)
  look_up io req (some cache) =
      if req.use_cache
      then (let (cache', found) = C.get io (cache_key req) cache in
          (some cache', elim found [ err e ↦ none | ok file ↦ some file ]))
      else (some cache, none)

  -- The `Set` that follows a new file.
  unfoldable pub to_store : FileRequest → Option C.State → File → Option Pending
  to_store req none file = none
  to_store req (some cache) file =
      if req.use_cache
      then some (record { key = cache_key req; file = file; ttl = pos (24 * (3600 * 10 ^ 9)) })
      else none

  -- The goroutine, whenever it runs; its error is only logged.
  unfoldable pub run_pending : C.Call → Option Pending → FileService C → FileService C
  run_pending io none s = s
  run_pending io (some p) s = elim s.cache [
    | none ↦ s
    | some cache ↦ record s { cache = some (C.set io p.key p.file p.ttl cache).0 }
  ]

  not_configured : Error
  not_configured = plain (lit "cache not configured")

  unfoldable pub clear_cache : C.Call → FileService C → FileService C × Option Error
  unfolding not_configured
  clear_cache io s = elim s.cache [
    | none ↦ (s, some not_configured)
    | some cache ↦ let (cache', e) = C.clear io cache in (record s { cache = some cache' }, e)
  ]

  unfoldable pub get_cache_stats : C.Call → FileService C → Result CacheStats
  unfolding not_configured
  get_cache_stats io s = elim s.cache [ none ↦ err not_configured | some cache ↦ C.stats io cache ]

  unfoldable pub delete_from_cache : C.Call → Str → FileService C → FileService C × Option Error
  unfolding not_configured
  delete_from_cache io key s = elim s.cache [
    | none ↦ (s, some not_configured)
    | some cache ↦ let (cache', e) = C.delete io key cache in (record s { cache = some cache' }, e)
  ]

module _ (gunzip : Bytes → GzipReader) (sniff : Bytes → Str) (rpc : Client → Str → Str → Result Str)
    (now : ℕ) where
  -- `GetFile`, from the choice of the client to the new file.
  unfoldable pub fetch : Manager → Decompressor → FileRequest → Result File
  unfolding content_of
  fetch m d req = get_client m req.chain_id >>= λ client.
      decrypt_data (rpc client) req.txid req.evk >>= λ encrypted_data.
      (let content = content_of gunzip d encrypted_data in
        ok (record {
          txid = req.txid;
          chain_id = req.chain_id;
          content = content;
          metadata = some (detect_type sniff content req.filename);
          retrieved_at = now;
        }))

  module _ (C : Cache) where
    -- `GetFile`: the service after it, its result, and the `Set` that it leaves to a goroutine.
    unfoldable pub get_file :
        C.Call → FileRequest → FileService C → FileService C × Result File × Option Pending
    get_file io req s = elim (validate req) [
      | some e ↦ (s, err e, none)
      | none ↦
          let (cache, found) = look_up C io req s.cache in
          let s' = record s { cache = cache } in
          elim found [
            | some file ↦ (s', ok file, none)
            | none ↦ elim (fetch s.chain_manager s.decompressor req) [
              | err e ↦ (s', err e, none)
              | ok file ↦ (s', ok file, to_store C req cache file)
            ]
          ]
    ]

    -- `GetMetadata`
    unfoldable pub get_metadata :
        C.Call
        → FileRequest
        → FileService C
        → FileService C × Result (Option FileMetadata) × Option Pending
    get_metadata io req s =
        let (s', result, pending) = get_file io req s in
        (s', elim result [ err e ↦ err e | ok file ↦ ok file.metadata ], pending)
