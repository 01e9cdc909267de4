-- ===== src/Http/FileHandler/Statuses.antt =====
-- The answers of the gateway to a request for a file.
use verus_gateway.Base.{
  ℕ, ◌≡◌, ◌≢◌, refl, ap, sym, ◌∙◌, inl, inr, Option, none, some, arith, nat_eq, list_eq,
  Option-cases,
}
use verus_gateway.Base.Bytes.{Bytes, Str, lit}
use verus_gateway.Domain.Errors.{
  Error, domain, sentinel, plain, wrapped, Result, Result-cases, ok, err, http_status,
}
use verus_gateway.Domain.File.{File}
use verus_gateway.Domain.Interfaces.{Cache}
use verus_gateway.Domain.Request.{FileRequest, validate, txid_pattern}
use verus_gateway.Rpc.{Client}
use verus_gateway.Storage.Decompressor.{GzipReader}
use verus_gateway.Service.{FileService, Pending, get_file}
use verus_gateway.Domain.Request.Grammar.{
  IsWellFormed, validate-IsWellFormed, IsTxid, txid_pattern_iff,
}
use verus_gateway.Domain.Request.Refusals.{validate-FirstFault}
use verus_gateway.Service.Refusing.{FirstFault-status}
use verus_gateway.Service.Fetching.{get_file-ok}
use verus_gateway.Http.FileHandler.{
  FileCall, metadata_request, Response, content, is_hex_string, file_request, write_error,
  file_response, handle_file,
}

pub write_error-status :
    (request_id : Str) (e : Error) (n : ℕ)
    → http_status e ≡ some n
    → (write_error request_id e).status ≡ n
unfolding write_error http_status
write_error-status request_id (sentinel s) n h = cc h
write_error-status request_id (plain s) n h = cc h
write_error-status request_id (wrapped s e) n h = cc h
write_error-status request_id (domain code message c status details) n h = cc h

triple-eq {ℓ} :
    {A B : Type 0} {C : Type ℓ} (x : C × A × B) {c : C} {a : A} {b : B}
    → x.0 ≡ c
    → x.1 ≡ a
    → x.2 ≡ b
    → x ≡ (c, a, b)
triple-eq x p q r = λ i. (p i, q i, r i)

error-body :
    (request_id : Str) (req : FileRequest) (e : Error) (response : Response) (bytes : Bytes)
    → file_response request_id req (err e) ≡ some response
    → response.body ≢ content bytes
unfolding file_response write_error
error-body request_id req (sentinel s) response bytes h b = cc (h, b)
error-body request_id req (plain s) response bytes h b = cc (h, b)
error-body request_id req (wrapped s e) response bytes h b = cc (h, b)
error-body request_id req (domain code message c status details) response bytes h b = cc (h, b)

file_response-content :
    (request_id : Str) (req : FileRequest) (file : File) (response : Response) (bytes : Bytes)
    → file_response request_id req (ok file) ≡ some response
    → response.body ≡ content bytes
    → (response.status ≡ 200) × (file.content ≡ bytes)
unfolding file_response
file_response-content request_id req file response bytes h b = ground arith

module _ (gunzip : Bytes → GzipReader) (sniff : Bytes → Str) (rpc : Client → Str → Str → Result Str)
    (now : ℕ) (C : Cache) (io : C.Call) (request_id : Str) (r : FileCall) (s : FileService C) where
  abbrev answer : FileService C × Option Response × Option Pending
  answer = handle_file gunzip sniff rpc now C io request_id r s

  -- A request for a file that is not well-formed is answered with status 400. It reaches neither the
  -- cache nor a node, and nothing is stored.
  pub handle_file-refused :
      (¬ IsWellFormed (file_request r))
      → (answer.0 ≡ s)
        × ((response : Response) × (answer.1 ≡ some response) × (response.status ≡ 400))
        × (answer.2 ≡ none)
  unfolding handle_file get_file file_response
  handle_file-refused n = elim (Option-cases (validate (file_request r))) [
    | inl v ↦ absurd (n ((validate-IsWellFormed (file_request r)).0 v))
    | inr (e, v) ↦
        rw (v, get_file)
          (
            refl,
            (
              write_error request_id e,
              refl,
              write_error-status request_id e 400
                  (FirstFault-status (file_request r) e (validate-FirstFault (file_request r) e v)),
            ),
            refl,
          )
  ]

  -- A response with a file's content has status 200, and goes to a well-formed request for which the
  -- service returned that content.
  pub handle_file-content :
      (s' : FileService C) (response : Response) (p : Option Pending) (bytes : Bytes)
      → answer ≡ (s', some response, p)
      → response.body ≡ content bytes
      → IsWellFormed (file_request r)
        × (response.status ≡ 200)
        × ((file : File) × (get_file gunzip sniff rpc now C io (file_request r) s
              ≡ (s', ok file, p))
            × (file.content ≡ bytes))
  unfolding handle_file
  handle_file-content s' response p bytes h body =
      let result = get_file gunzip sniff rpc now C io (file_request r) s in
      elim (Result-cases result.1) [
        | inr (e, k) ↦ absurd (
            error-body request_id (file_request r) e response bytes
              (sym (ap (file_response request_id (file_request r)) k) ∙ cc h) body)
        | inl (file, k) ↦
            let shown =
              file_response-content request_id (file_request r) file response bytes
                (sym (ap (file_response request_id (file_request r)) k) ∙ cc h) body in
            let run : result ≡ (s', ok file, p) =
              triple-eq result (ap (λ a. a.0) h) k (ap (λ a. a.2) h) in
            (
              (get_file-ok gunzip sniff rpc now C io (file_request r) s s' file p run).0,
              shown.0,
              (file, run, shown.1),
            )
      ]

-- A path that is a TXID makes the same request for `GetFile` as for `HeadFile` and `GetMeta`. Any other
-- path is a file name for `GetFile`, with the TXID in the query, and no request is well-formed that
-- `HeadFile` or `GetMeta` makes of it.
pub file_request_lem :
    (r : FileCall)
    → (IsTxid r.path_param → file_request r ≡ metadata_request r)
      × ((¬ IsTxid r.path_param)
          → ((file_request r).filename ≡ r.path_param)
            × ((file_request r).txid ≡ r.query (lit "txid"))
            × (¬ IsWellFormed (metadata_request r)))
unfolding file_request metadata_request is_hex_string txid_pattern
file_request_lem r =
    let p = txid_pattern_iff r.path_param in
    (λ t. ground (arith, p.1 t), λ n. (ground (arith, p.0), ground (arith, p.0), λ w. n w.txid))
