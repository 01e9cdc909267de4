-- ===== src/Http/FileHandler.antt =====
-- internal/http/handler/file_handler.go. The parameters of a route and of a query are those that the
-- router and net/url deliver.
pub mod Statuses
pub mod Serving
pub mod Stored
use verus_gateway.Base.{
  ℕ, zero, suc, ◌*◌, ◌^◌, ◌≡◌, ◌≢◌, ◌≤◌, ◌<◌, ◌⊎◌, ◌↔◌, refl, ap, sym, ◌∙◌, Bool, true, false, not,
  ◌&&◌, ◌||◌, inl, inr, Option, none, some, List, [], ◌∷◌, ◌++◌, arith, ltb, ◌==◌, nat_eq, list_eq,
  if◌then◌else◌, length, every, All, Bool-cases, Option-cases, ℕ_discrete, list_dec,
}
use verus_gateway.Base.Bytes.{Bytes, Str, lit}
use verus_gateway.Base.Decimal.{decimal}
use verus_gateway.Domain.Errors.{
  Error, domain, sentinel, plain, wrapped, Cause, Detail, Result, Result-cases, ok, err,
  http_status,
}
use verus_gateway.Domain.File.{File, FileMetadata}
use verus_gateway.Domain.Interfaces.{Cache}
use verus_gateway.Domain.Request.{FileRequest, validate, is_empty, is_hex}
use verus_gateway.Rpc.{Client}
use verus_gateway.Storage.Decompressor.{GzipReader}
use verus_gateway.Service.{FileService, Pending, get_file, get_metadata}

-- A request's `chain`, its last path element, and its query.
pub record FileCall : Type 0 where
  pub chain : Str
  pub path_param : Str
  pub query : Str → Str

-- The fields of a JSON object with metadata, and of one with an error.
pub data Body : Type 0 where
  empty : Body
  content : Bytes → Body
  metadata_json : Str → Str → FileMetadata → Body
  error_json : Str → Str → Str → List (Str × Detail) → Body

pub record Response : Type 0 where
  pub status : ℕ
  pub headers : List (Str × Str)
  pub body : Body

-- `isHexString`; the bytes of a character outside ASCII are no digits either.
unfoldable pub is_hex_string : Str → Bool
is_hex_string s = every is_hex s

-- The request that `GetFile` builds.
unfoldable pub file_request : FileCall → FileRequest
file_request r =
    if length r.path_param == 64 && is_hex_string r.path_param
    then record {
      txid = r.path_param;
      evk = r.query (lit "evk");
      chain_id = r.chain;
      filename = [];
      use_cache = true;
    }
    else record {
      txid = r.query (lit "txid");
      evk = r.query (lit "evk");
      chain_id = r.chain;
      filename = r.path_param;
      use_cache = true;
    }

-- The request that `HeadFile` and `GetMeta` build.
unfoldable pub metadata_request : FileCall → FileRequest
metadata_request r = record {
  txid = r.path_param;
  evk = r.query (lit "evk");
  chain_id = r.chain;
  filename = [];
  use_cache = true;
}

-- `strings.ReplaceAll(s, "\"", "\\\"")`: each quotation mark gets a backslash.
unfoldable pub escape_quotes : Str → Str
escape_quotes [] = []
escape_quotes (c ∷ s) = if c == 34 then 92 ∷ 34 ∷ escape_quotes s else c ∷ escape_quotes s

unfoldable pub quoted : Str → Str
quoted s = 34 ∷ (s ++ (34 ∷ []))

-- `setFileHeaders`
unfoldable pub file_headers : Str → Bytes → FileMetadata → List (Str × Str)
file_headers txid bytes m =
    (
      lit "Content-Type",
      if is_empty m.content_type then lit "application/octet-stream" else m.content_type,
    )
    ∷ ((if is_empty m.filename
          then []
          else (
            lit "Content-Disposition",
            lit "inline; filename=" ++ quoted (escape_quotes m.filename),
          )
            ∷ [])
        ++ ((if ltb 0 m.size then (lit "Content-Length", decimal m.size) ∷ [] else [])
            ++ ((lit "Cache-Control", lit "public, max-age=31536000, immutable")
                ∷ (lit "ETag", quoted txid)
                ∷ [])))

-- `writeError`
unfoldable pub write_error : Str → Error → Response
write_error request_id (domain code message c status details) = record {
  status = status;
  headers = (lit "Content-Type", lit "application/json") ∷ [];
  body = error_json code message request_id details;
}
write_error request_id e = record {
  status = 500;
  headers = (lit "Content-Type", lit "application/json") ∷ [];
  body = error_json (lit "INTERNAL_ERROR") (lit "An internal error occurred") request_id [];
}

-- The answer to `GetFile`'s result; without metadata it panics, which is none.
unfoldable pub file_response : Str → FileRequest → Result File → Option Response
file_response request_id req (err e) = some (write_error request_id e)
file_response request_id req (ok file) = elim file.metadata [
  | none ↦ none
  | some m ↦
      let named = record m {
        filename = if is_empty m.filename then req.filename else m.filename;
      } in
      some (record {
        status = 200;
        headers = file_headers file.txid file.content named;
        body = content file.content;
      })
]

-- The headers of `HeadFile`.
unfoldable pub head_headers : FileMetadata → List (Str × Str)
head_headers m =
    (if is_empty m.content_type then [] else (lit "Content-Type", m.content_type) ∷ [])
    ++ ((if ltb 0 m.size then (lit "Content-Length", decimal m.size) ∷ [] else [])
        ++ (if is_empty m.filename
            then []
            else (lit "Content-Disposition", lit "inline; filename=" ++ quoted m.filename) ∷ []))

unfoldable pub head_response : Str → Result (Option FileMetadata) → Option Response
head_response request_id (err e) = some (write_error request_id e)
head_response request_id (ok none) = none
head_response request_id (ok (some m)) =
    some (record { status = 200; headers = head_headers m; body = empty })

unfoldable pub meta_response : Str → FileCall → Result (Option FileMetadata) → Option Response
meta_response request_id r (err e) = some (write_error request_id e)
meta_response request_id r (ok none) = none
meta_response request_id r (ok (some m)) = some (record {
  status = 200;
  headers = (lit "Content-Type", lit "application/json") ∷ [];
  body = metadata_json r.path_param r.chain m;
})

module _ (gunzip : Bytes → GzipReader) (sniff : Bytes → Str) (rpc : Client → Str → Str → Result Str)
    (now : ℕ) (C : Cache) (io : C.Call) (request_id : Str) where
  -- `GetFile`, with the service after it and the `Set` that is left to a goroutine.
  unfoldable pub handle_file :
      FileCall → FileService C → FileService C × Option Response × Option Pending
  handle_file r s =
      let req = file_request r in
      let (s', result, pending) = get_file gunzip sniff rpc now C io req s in
      (s', file_response request_id req result, pending)

  -- `HeadFile`
  unfoldable pub handle_head :
      FileCall → FileService C → FileService C × Option Response × Option Pending
  handle_head r s =
      let (s', result, pending) = get_metadata gunzip sniff rpc now C io (metadata_request r) s in
      (s', head_response request_id result, pending)

  -- `GetMeta`
  unfoldable pub handle_meta :
      FileCall → FileService C → FileService C × Option Response × Option Pending
  handle_meta r s =
      let (s', result, pending) = get_metadata gunzip sniff rpc now C io (metadata_request r) s in
      (s', meta_response request_id r result, pending)
