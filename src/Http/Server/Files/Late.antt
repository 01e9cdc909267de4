-- ===== src/Http/Server/Files/Late.antt =====
-- Files asked for under a read time-out that is lost on 64 bits.
use mathlib.Core.Path.{subst}
use verus_gateway.Base.{ℕ, suc, ◌≡◌, ◌⊎◌, refl, ap, inl, inr, true, Option, none, some}
use verus_gateway.Base.Bytes.{Bytes, Str, lit}
use verus_gateway.Base.Int.{ℤ, pos, ◌≤ℤ◌}
use verus_gateway.Domain.Errors.{Error, Result}
use verus_gateway.Cache.World.{Codec, Io}
use verus_gateway.Cache.Filesystem.{filesystem_cache}
use verus_gateway.Rpc.{Client, Response, Attempt}
use verus_gateway.Rpc
use verus_gateway.Rpc.Ended.{IsEnded}
use verus_gateway.Storage.Decompressor.{GzipReader}
use verus_gateway.Service.{FileService}
use verus_gateway.Service.Ended.{get_file-ended}
use verus_gateway.Service.Refusing.{get_file-HasStatus}
use verus_gateway.Config.Settings.{Settings}
use verus_gateway.Observability.Metrics.Recording.{HasLabels}
use verus_gateway.Http.FileHandler.{
  FileCall, Body, file_request, write_error, file_response, handle_file,
}
use verus_gateway.Http.FileHandler
use verus_gateway.Http.FileHandler.Statuses.{write_error-status}
use verus_gateway.Http.FileHandler.Serving.{Answers, respond-Answers, file_answer, serve_file}
use verus_gateway.Http.Middleware.{
  Request, Writer, returned, Handler, status_of, get_request_id, with_timeout,
}
use verus_gateway.Http.Server.{Arrival, setup_middleware}
use verus_gateway.Http.Server.Panics.{arrived}
use verus_gateway.Http.Server.Deadline.{IsLost, past_of_lost}
use verus_gateway.Http.Server.Files.{Relays, setup_middleware-Answers}

-- What context documents: once its deadline has passed, a context is done, the calls of the cache and of
-- net/http see its error.
abbrev pub EndsContexts : ℕ → (Request → Io) → (Request → ℕ → Attempt) → Type 0
EndsContexts now io attempts =
    (r : Request) (x : ℤ)
    → r.deadline ≡ some x
    → x ≤ℤ pos now
    → (ctx : Error) × ((io r).ctx ≡ some ctx) × IsEnded ctx (attempts r)

module _ (json : Body → Bytes) (gunzip : Bytes → GzipReader) (sniff : Bytes → Str) (now : ℕ)
    (codec : Codec) (unmarshal : Bytes → Result Response)
    (first_object : Bytes → Result (Option (Option Str))) (io : Request → Io)
    (attempts : Request → ℕ → Attempt) (call_of : Request → FileCall)
    (s : FileService (filesystem_cache codec)) where
  abbrev rpc : Request → Client → Str → Str → Result Str
  rpc r client txid evk = (Rpc.decrypt_data unmarshal first_object (attempts r) client).1

  -- `GetFile` over the cache of files and the JSON-RPC client.
  abbrev pub file_server : Handler
  file_server = serve_file json gunzip sniff rpc now (filesystem_cache codec) io call_of s

  abbrev answer : Request → Option FileHandler.Response
  answer = file_answer json gunzip sniff rpc now (filesystem_cache codec) io call_of s

  answer-ended :
      (r : Request) (ctx : Error)
      → (io r).ctx ≡ some ctx
      → IsEnded ctx (attempts r)
      → (response : FileHandler.Response) × (answer r ≡ some response)
        × ((response.status ≡ 400) ⊎ (response.status ≡ 500))
  unfolding file_answer handle_file file_response
  answer-ended r ctx done ended =
      let req = file_request (call_of r) in
      let (e, run) =
        get_file-ended codec (io r) ctx done unmarshal first_object (attempts r) ended gunzip sniff
          now req s in
      let (status, _) =
        get_file-HasStatus gunzip sniff (rpc r) now (filesystem_cache codec) (io r) req s s e none
          run in
      (
        write_error (get_request_id r) e,
        ap (λ x. file_response (get_request_id r) req x.1) run,
        elim status [
          | inl h ↦ inl (write_error-status (get_request_id r) e 400 h)
          | inr h ↦ inr (write_error-status (get_request_id r) e 500 h)
        ],
      )

  file_server-Answers :
      (r : Request) (response : FileHandler.Response)
      → answer r ≡ some response
      → Answers file_server r response.status
  unfolding serve_file
  file_server-Answers r response h w unsent = rw h (respond-Answers json response r w unsent)

  -- With a read time-out of `d` nanoseconds that is lost on 64 bits, no file is served over the filesystem
  -- cache: each GET that comes without a deadline is answered with status 400 or 500, whatever it
  -- asks for and whatever the cache holds, where CORS and compression relay the status and a
  -- context ends at its deadline.
  pub file_server-late :
      (cors compress : Handler → Handler)
      → Relays cors
      → Relays compress
      → (cfg : Settings) (d : ℕ) → cfg.server.read_timeout ≡ pos d
      → IsLost d
      → (a : Arrival) → EndsContexts a.now io attempts
      → (r : Request) (w : Writer) → r.method ≡ lit "GET"
      → r.deadline ≡ none
      → w.sent ≡ none
      → HasLabels w.metrics
      → (out : Writer) × (setup_middleware cors compress cfg true a file_server r w ≡ returned out)
        × ((status_of out ≡ 400) ⊎ (status_of out ≡ 500))
  unfolding with_timeout
  file_server-late cors compress cors_relays compress_relays cfg d timeout lost a ends r w get fresh
        unsent labels =
      let (ctx, done, ended) =
        ends (arrived a r cfg) _ (rw (fresh, timeout) refl) (past_of_lost a.now d lost) in
      let (response, shown, status) = answer-ended (arrived a r cfg) ctx done ended in
      let answers = file_server-Answers (arrived a r cfg) response shown in
      let seen = λ (n : ℕ) (h : Answers file_server (arrived a r cfg) (suc n)).
        setup_middleware-Answers cors compress cors_relays compress_relays cfg a file_server r n w
          get unsent labels h in
      elim status [
        | inl h ↦
            let (out, run, same) =
              seen 399 (subst (Answers file_server (arrived a r cfg)) h answers) in
            (out, run, inl same)
        | inr h ↦
            let (out, run, same) =
              seen 499 (subst (Answers file_server (arrived a r cfg)) h answers) in
            (out, run, inr same)
      ]
