-- ===== src/Http/FileHandler/Stored.antt =====
-- The response to a request for a file that an earlier request left in the filesystem cache.
use verus_gateway.Base.{
  ℕ, ◌≡◌, refl, ap, ◌∙◌, inl, inr, true, none, some, List, [], ◌∷◌, ◌++◌, arith, Bool-cases,
  ℕ_discrete, list_dec, list_eq, nat_eq, ltb, if◌then◌else◌,
}
use verus_gateway.Base.Bytes.{Bytes, Str, lit}
use verus_gateway.Base.Int.{pos, ◌-ℤ◌, ◌≤ℤ◌}
use verus_gateway.Domain.Errors.{Result, ok}
use verus_gateway.Domain.File.{File, FileMetadata}
use verus_gateway.Domain.Request.{FileRequest, cache_key, is_empty}
use verus_gateway.Domain.Request.Grammar.{IsWellFormed}
use verus_gateway.Rpc.{Client}
use verus_gateway.Storage.Decompressor.{GzipReader}
use verus_gateway.Cache.World.{Codec, calm}
use verus_gateway.Cache.State.{FilesystemCache}
use verus_gateway.Cache.Filesystem.{filesystem_cache}
use verus_gateway.Service.{FileService}
use verus_gateway.Service.Caching.{get_file-stored, stored_service}
use verus_gateway.Http.FileHandler.{
  FileCall, Body, file_request, file_headers, file_response, handle_file, quoted,
}
use verus_gateway.Http.FileHandler.Serving.{set_all, respond, write_body, file_answer, serve_file}
use verus_gateway.Http.Middleware.{
  Request, Writer, returned, set, value_of, send, write_header, write, get_request_id,
}
use verus_gateway.Http.Middleware.Headers.{value_of-set}

set_all-append :
    (first second headers : List (Str × Str))
    → set_all (first ++ second) headers ≡ set_all second (set_all first headers)
unfolding set_all
set_all-append [] second headers = refl
set_all-append ((k, v) ∷ first) second headers = set_all-append first second (set k v headers)

-- What the headers of a file tell a client.
file_headers-etag :
    (txid : Str) (bytes : Bytes) (m : FileMetadata) (headers : List (Str × Str))
    → value_of (lit "ETag") (set_all (file_headers txid bytes m) headers) ≡ some (quoted txid)
unfolding file_headers set_all lit list_dec ℕ_discrete
file_headers-etag txid bytes m headers = simp (set_all-append, value_of-set)

file_headers-content_type :
    (txid : Str) (bytes : Bytes) (m : FileMetadata) (headers : List (Str × Str))
    → value_of (lit "Content-Type") (set_all (file_headers txid bytes m) headers)
      ≡ some (if is_empty m.content_type then lit "application/octet-stream" else m.content_type)
unfolding file_headers set_all lit list_dec ℕ_discrete
file_headers-content_type txid bytes m headers = elim (Bool-cases (is_empty m.filename)) [
  | inl a ↦ elim (Bool-cases (ltb 0 m.size)) [
    | inl b ↦ simp (a, b, value_of-set)
    | inr b ↦ simp (a, b, value_of-set)
  ]
  | inr a ↦ elim (Bool-cases (ltb 0 m.size)) [
    | inl b ↦ simp (a, b, value_of-set)
    | inr b ↦ simp (a, b, value_of-set)
  ]
]

-- What a client gets to see of a file.
pub record Shows (file : File) (m : FileMetadata) (before out : Writer) : Type 0 where
  pub headers : List (Str × Str)
  pub sent : out.sent ≡ some (200, headers)
  pub body : out.body ≡ before.body ++ file.content
  pub etag : value_of (lit "ETag") headers ≡ some (quoted file.txid)
  pub content_type :
      value_of (lit "Content-Type") headers
      ≡ some (if is_empty m.content_type then lit "application/octet-stream" else m.content_type)

pub respond-Shows :
    (json : Body → Bytes) (request_id : Str) (req : FileRequest) (file : File) (m : FileMetadata)
    (w : Writer)
    → file.metadata ≡ some m
    → w.sent ≡ none
    → (out : Writer) × (respond json (file_response request_id req (ok file)) w ≡ returned out)
      × Shows file m w out
unfolding file_response respond write_body write_header write send
respond-Shows json request_id req file m w has unsent =
    let named = record m { filename = if is_empty m.filename then req.filename else m.filename } in
    let headers = set_all (file_headers file.txid file.content named) w.headers in
    (
      record w {
        headers = headers;
        sent = some (200, headers);
        last_status = some 200;
        body = w.body ++ file.content;
      },
      rw (has, unsent) refl,
      record {
        headers = headers;
        sent = refl;
        body = refl;
        etag = file_headers-etag file.txid file.content named w.headers;
        content_type = file_headers-content_type file.txid file.content named w.headers;
      },
    )

file_request-use_cache : (r : FileCall) → (file_request r).use_cache ≡ true
unfolding file_request
file_request-use_cache r = ground arith

module _ (codec : Codec) (first : FileRequest) (stored later : ℕ) (c : FilesystemCache)
    (file : File) (s : FileService (filesystem_cache codec)) (call : FileCall) where
  abbrev service : FileService (filesystem_cache codec)
  service = stored_service codec first (file_request call) stored later c file s

  -- Once the file of one request is stored without a failure, and while the TTL of the cache lasts,
  -- `GetFile` answers each well-formed request with the same cache key with status 200 and the
  -- stored content, under the content type that was stored with it. The ETag is that of an empty
  -- TXID, whichever the file.
  pub serve_file-stored :
      (json : Body → Bytes) (gunzip : Bytes → GzipReader) (sniff : Bytes → Str)
      (rpc : Request → Client → Str → Str → Result Str) (now : ℕ) (m : FileMetadata) (bytes : Bytes)
      (r : Request) (w : Writer)
      → first.use_cache ≡ true
      → s.cache ≡ some c
      → file.metadata ≡ some m
      → codec.marshal m ≡ ok bytes
      → (pos later -ℤ pos stored) ≤ℤ c.ttl
      → IsWellFormed (file_request call)
      → cache_key (file_request call) ≡ cache_key first
      → w.sent ≡ none
      → (out : Writer) × (serve_file json gunzip sniff rpc now
            (filesystem_cache codec)
            (λ r'. calm later)
            (λ r'. call)
            service
            r
            w
          ≡ returned out)
        × Shows
            (record {
              txid = [];
              chain_id = [];
              content = file.content;
              metadata = some (codec.unmarshal bytes);
              retrieved_at = later;
            })
            (codec.unmarshal bytes)
            w
            out
  unfolding serve_file file_answer handle_file
  serve_file-stored json gunzip sniff rpc now m bytes r w u has_cache has json' young wf same
        unsent =
      let found =
        get_file-stored codec first (file_request call) stored later c file s gunzip sniff (rpc r)
          now m bytes u has_cache has json' young wf (file_request-use_cache call) same in
      let (out, run, shows) =
        respond-Shows json (get_request_id r) (file_request call) _ (codec.unmarshal bytes) w refl
          unsent in
      (
        out,
        ap (λ result. respond json (file_response (get_request_id r) (file_request call) result) w)
              found
            ∙ run,
        shows,
      )
