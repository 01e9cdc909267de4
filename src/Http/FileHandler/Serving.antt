-- ===== src/Http/FileHandler/Serving.antt =====
-- How the handlers of files write their responses, for the server to put its middlewares around them.
use verus_gateway.Base.{
  ℕ, ◌≡◌, refl, ◌∙◌, Option, none, some, List, [], ◌∷◌, arith, list_eq, nat_eq,
}
use verus_gateway.Base.Bytes.{Bytes, Str, lit}
use verus_gateway.Domain.Errors.{Result}
use verus_gateway.Domain.Interfaces.{Cache}
use verus_gateway.Rpc.{Client}
use verus_gateway.Storage.Decompressor.{GzipReader}
use verus_gateway.Service.{FileService}
use verus_gateway.Http.FileHandler.{
  FileCall, Body, empty, content, metadata_json, error_json, Response, handle_file, handle_head,
  handle_meta,
}
use verus_gateway.Http.Middleware.{
  Request, Writer, Outcome, returned, panicked, Handler, set, send, write_header, write, status_of,
  get_request_id,
}

-- The calls of `Header().Set` one after the other.
unfoldable pub set_all : List (Str × Str) → List (Str × Str) → List (Str × Str)
set_all [] headers = headers
set_all ((key, value) ∷ given) headers = set_all given (set key value headers)

module _ (json : Body → Bytes) where
  -- The body, where there is one; a JSON object is encoded.
  unfoldable pub write_body : Body → Writer → Writer
  write_body empty w = w
  write_body (content bytes) w = write bytes w
  write_body (metadata_json txid chain m) w = write (json (metadata_json txid chain m)) w
  write_body (error_json code message id details) w =
      write (json (error_json code message id details)) w

  -- The headers, the status, the body; without metadata the handler panics.
  unfoldable pub respond : Option Response → Writer → Outcome
  respond none w =
      panicked (lit "runtime error: invalid memory address or nil pointer dereference") w
  respond (some response) w = returned (
      write_body response.body
        (write_header response.status (record w { headers = set_all response.headers w.headers })))

  module _ (gunzip : Bytes → GzipReader) (sniff : Bytes → Str)
      (rpc : Request → Client → Str → Str → Result Str) (now : ℕ) (C : Cache)
      (io : Request → C.Call) (call_of : Request → FileCall) (s : FileService C) where
    -- What `GetFile` responds, on a service in some state.
    unfoldable pub file_answer : Request → Option Response
    file_answer r =
        (handle_file gunzip sniff (rpc r) now C (io r) (get_request_id r) (call_of r) s).1

    -- `GetFile`
    unfoldable pub serve_file : Handler
    serve_file r w = respond (file_answer r) w

    -- `HeadFile`
    unfoldable pub serve_head : Handler
    serve_head r w =
        respond (handle_head gunzip sniff (rpc r) now C (io r) (get_request_id r) (call_of r) s).1 w

    -- `GetMeta`
    unfoldable pub serve_meta : Handler
    serve_meta r w =
        respond (handle_meta gunzip sniff (rpc r) now C (io r) (get_request_id r) (call_of r) s).1 w

-- A handler that answers a request with a status, whatever stands on the writer before.
abbrev pub Answers : Handler → Request → ℕ → Type 0
Answers next r n =
    (w : Writer)
    → w.sent ≡ none
    → (w' : Writer) × (next r w ≡ returned w') × (status_of w' ≡ n) × (w'.metrics ≡ w.metrics)

write-status :
    (bytes : Bytes) (w : Writer) (n : ℕ) (headers : List (Str × Str))
    → w.sent ≡ some (n, headers)
    → (status_of (write bytes w) ≡ n) × ((write bytes w).metrics ≡ w.metrics)
unfolding write send status_of
write-status bytes w n headers h = ground arith

module _ (json : Body → Bytes) where
  write_body-status :
      (body : Body) (w : Writer) (n : ℕ) (headers : List (Str × Str))
      → w.sent ≡ some (n, headers)
      → (status_of (write_body json body w) ≡ n) × ((write_body json body w).metrics ≡ w.metrics)
  unfolding write_body status_of
  write_body-status empty w n headers h = (rw h refl, refl)
  write_body-status (content bytes) w n headers h = write-status bytes w n headers h
  write_body-status (metadata_json txid chain m) w n headers h = write-status _ w n headers h
  write_body-status (error_json code message id details) w n headers h =
      write-status _ w n headers h

  write_header-sent :
      (n : ℕ) (w : Writer)
      → w.sent ≡ none
      → ((write_header n w).sent ≡ some (n, w.headers)) × ((write_header n w).metrics ≡ w.metrics)
  unfolding write_header send
  write_header-sent n w h = rw (h, write_header, send) (refl, refl)

  pub respond-Answers :
      (response : Response) (r : Request)
      → Answers (λ r'. respond json (some response)) r response.status
  unfolding respond
  respond-Answers response r w unsent =
      let headed = record w { headers = set_all response.headers w.headers } in
      let (sent, same) = write_header-sent response.status headed unsent in
      let (status, kept) =
        write_body-status response.body (write_header response.status headed) response.status _
          sent in
      (_, refl, status, kept ∙ same)
