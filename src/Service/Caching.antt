-- ===== src/Service/Caching.antt =====
-- Requests after a file was stored in a filesystem cache.
use verus_gateway.Base.{ℕ, ◌*◌, ◌^◌, ◌≡◌, refl, ap, ◌∙◌, true, some, []}
use verus_gateway.Base.Bytes.{Bytes, Str}
use verus_gateway.Base.Int.{pos, ◌-ℤ◌, ◌≤ℤ◌}
use verus_gateway.Domain.Errors.{Result, ok}
use verus_gateway.Domain.File.{File, FileMetadata}
use verus_gateway.Domain.Interfaces.{Cache}
use verus_gateway.Domain.Request.{FileRequest, cache_key}
use verus_gateway.Domain.Request.Grammar.{IsWellFormed, validate-IsWellFormed}
use verus_gateway.Rpc.{Client}
use verus_gateway.Storage.Decompressor.{GzipReader}
use verus_gateway.Service.{FileService, look_up, to_store, get_file, run_pending}
use verus_gateway.Cache.World.{Codec, calm}
use verus_gateway.Cache.State.{FilesystemCache}
use verus_gateway.Cache.Filesystem.{filesystem_cache, get, set}
use verus_gateway.Cache.Filesystem.RoundTrip.{get-set}
use verus_gateway.Service.Fetching.{get_file-found}

look_up-ok :
    (C : Cache) (io : C.Call) (req : FileRequest) (c : C.State) (file : File)
    → req.use_cache ≡ true
    → (C.get io (cache_key req) c).1 ≡ ok file
    → (look_up C io req (some c)).1 ≡ some file
unfolding look_up cache_key
look_up-ok C io req c file u h = rw (u, h) refl

module _ (codec : Codec) (first second : FileRequest) (stored later : ℕ) (c : FilesystemCache)
    (file : File) (s : FileService (filesystem_cache codec)) where
  abbrev pub F : Cache
  F = filesystem_cache codec

  -- The service after the goroutine has stored the file of the first request.
  abbrev pub stored_service : FileService F
  stored_service = run_pending F (calm stored) (to_store F first (some c) file) s

  stored_cache :
      first.use_cache ≡ true
      → s.cache ≡ some c
      → stored_service.cache
        ≡ some (set codec (calm stored) (cache_key first) file (pos (24 * (3600 * 10 ^ 9))) c).0
  unfolding run_pending to_store
  stored_cache u h = rw (u, h) refl

  -- Once the file of one request is stored without a failure, and while the TTL of the cache lasts, a
  -- second well-formed request with the same cache key, whichever viewing key it carries, gets the
  -- same content from the cache, whatever its node would answer. It gets the metadata as they went
  -- through JSON, and no TXID or chain.
  pub get_file-stored :
      (gunzip : Bytes → GzipReader) (sniff : Bytes → Str) (rpc : Client → Str → Str → Result Str)
      (now : ℕ) (m : FileMetadata) (bytes : Bytes)
      → first.use_cache ≡ true
      → s.cache ≡ some c
      → file.metadata ≡ some m
      → codec.marshal m ≡ ok bytes
      → (pos later -ℤ pos stored) ≤ℤ c.ttl
      → IsWellFormed second
      → second.use_cache ≡ true
      → cache_key second ≡ cache_key first
      → (get_file gunzip sniff rpc now F (calm later) second stored_service).1
        ≡ ok (record {
          txid = [];
          chain_id = [];
          content = file.content;
          metadata = some (codec.unmarshal bytes);
          retrieved_at = later;
        })
  get_file-stored gunzip sniff rpc now m bytes u h has json young w u' same =
      let c' = (set codec (calm stored) (cache_key first) file (pos (24 * (3600 * 10 ^ 9))) c).0 in
      let hit =
        get-set codec stored (cache_key first) file (pos (24 * (3600 * 10 ^ 9))) c later m bytes has
          json young in
      let found =
        look_up-ok F (calm later) second c' _ u'
          (ap (λ k. (get codec (calm later) k c').1) same ∙ hit) in
      ap (λ r. r.1)
        (get_file-found gunzip sniff rpc now F (calm later) second stored_service
          ((validate-IsWellFormed second).1 w) _
          (ap (λ o. (look_up F (calm later) second o).1) (stored_cache u h) ∙ found))
