-- ===== src/Domain/Errors.antt =====
-- internal/domain/errors.go: the sentinel errors, the domain error and its constructors.
use mathlib.Core.List.{lookup}
use verus_gateway.Base.{
  inl, inr, ◌⊎◌, ℕ, ◌≡◌, refl, Option, none, some, List, [], ◌∷◌, ◌++◌, ◌==◌, list_eq,
  if◌then◌else◌,
}
use verus_gateway.Base.Bytes.{Str, lit}

pub data Sentinel : Type 0 where
  not_found invalid_input unauthorized rate_limited cache_miss chain_not_found chain_disabled :
      Sentinel
  rpc_error decryption_failed decompression_failed invalid_txid invalid_evk file_too_large :
      Sentinel
  invalid_filename unsupported_format : Sentinel

-- A value of the map `Details`.
pub data Detail : Type 0 where
  text : Str → Detail
  number : ℕ → Detail

-- The values of Go's `error` that the gateway handles. `domain` is `*domain.Error`, its arguments in
-- the order of the fields; `plain` is `errors.New` or `fmt.Errorf`, and `wrapped` is `fmt.Errorf`
-- with `%w` behind its text.
mutual
  pub data Error : Type 0 where
    sentinel : Sentinel → Error
    plain : Str → Error
    wrapped : Str → Error → Error
    domain : Str → Str → Cause → ℕ → List (Str × Detail) → Error

  -- The field `Err`, which may be nil.
  pub data Cause : Type 0 where
    no_cause : Cause
    cause : Error → Cause

-- A Go function's pair of a value and an `error`.
pub data Result {ℓ} (A : Type ℓ) : Type ℓ where
  ok : A → Result A
  err : Error → Result A

-- `if err != nil { return err }` between two calls.
module _ {ℓ κ} {A : Type ℓ} {B : Type κ} where
  infixl 5 ◌>>=◌
  abbrev pub ◌>>=◌ : Result A → (A → Result B) → Result B
  err failure >>= next = err failure
  ok value >>= next = next value

  -- Where two calls succeed one after the other, each of them does.
  pub ok-parts :
      (next : A → Result B) (result : B) (first : Result A)
      → (first >>= next) ≡ ok result
      → (value : A) × (next value ≡ ok result) × (first ≡ ok value)
  ok-parts next result (err failure) both = absurd (cc both)
  ok-parts next result (ok value) both = (value, both, refl)

  -- Where two calls fail one after the other, the first does or the second does.
  pub err-parts :
      (next : A → Result B) (e : Error) (first : Result A)
      → (first >>= next) ≡ err e
      → (first ≡ err e) ⊎ ((value : A) × (next value ≡ err e))
  err-parts next e (err failure) both = inl (cc both)
  err-parts next e (ok value) both = inr (value, both)

pub Result-cases {ℓ} :
    {A : Type ℓ} (m : Result A) → ((a : A) × (m ≡ ok a)) ⊎ ((e : Error) × (m ≡ err e))
Result-cases (ok a) = inl (a, refl)
Result-cases (err e) = inr (e, refl)

-- What is never a success is an error.
pub fails_of {ℓ} :
    {A : Type ℓ} (m : Result A) → ((a : A) → ¬ (m ≡ ok a)) → (e : Error) × (m ≡ err e)
fails_of (ok a) h = absurd (h a refl)
fails_of (err e) h = (e, refl)

unfoldable pub sentinel_text : Sentinel → Str
sentinel_text not_found = lit "not found"
sentinel_text invalid_input = lit "invalid input"
sentinel_text unauthorized = lit "unauthorized"
sentinel_text rate_limited = lit "rate limit exceeded"
sentinel_text cache_miss = lit "cache miss"
sentinel_text chain_not_found = lit "chain not found"
sentinel_text chain_disabled = lit "chain is disabled"
sentinel_text rpc_error = lit "rpc error"
sentinel_text decryption_failed = lit "decryption failed"
sentinel_text decompression_failed = lit "decompression failed"
sentinel_text invalid_txid = lit "invalid txid"
sentinel_text invalid_evk = lit "invalid evk"
sentinel_text file_too_large = lit "file too large"
sentinel_text invalid_filename = lit "invalid filename"
sentinel_text unsupported_format = lit "unsupported format"

-- `err.Error()`
unfoldable mutual
  pub error_text : Error → Str
  error_text (sentinel s) = sentinel_text s
  error_text (plain s) = s
  error_text (wrapped s e) = s ++ (lit ": " ++ error_text e)
  error_text (domain code message c status details) = message ++ cause_text c

  pub cause_text : Cause → Str
  cause_text no_cause = []
  cause_text (cause e) = lit ": " ++ error_text e

-- `Unwrap`, of a domain error and of one that `fmt.Errorf` wrapped.
unfoldable pub unwrap : Error → Option Error
unwrap (sentinel s) = none
unwrap (plain s) = none
unwrap (wrapped s e) = some e
unwrap (domain code message no_cause status details) = none
unwrap (domain code message (cause e) status details) = some e

unfoldable pub new_error : Str → Str → ℕ → Cause → Error
new_error code message http_status c = domain code message c http_status []

set_detail : Str → Detail → List (Str × Detail) → List (Str × Detail)
set_detail key value [] = (key, value) ∷ []
set_detail key value ((k, v) ∷ details) =
    if k == key then (key, value) ∷ details else (k, v) ∷ set_detail key value details

-- Only a domain error has the method; the other errors are left as they are.
unfoldable pub with_detail : Error → Str → Detail → Error
unfolding set_detail
with_detail (domain code message c status details) key value =
    domain code message c status (set_detail key value details)
with_detail e key value = e

unfoldable pub new_not_found_error : Str → Str → Error
unfolding new_error with_detail
new_not_found_error resource id =
    with_detail
      (with_detail
        (new_error (lit "NOT_FOUND") (resource ++ lit " not found") 404
          (cause (sentinel not_found)))
        (lit "resource") (text resource))
      (lit "id") (text id)

unfoldable pub new_invalid_input_error : Str → Str → Error
unfolding new_error with_detail
new_invalid_input_error field reason =
    with_detail
      (with_detail
        (new_error (lit "INVALID_INPUT") (lit "invalid input: " ++ reason) 400
          (cause (sentinel invalid_input)))
        (lit "field") (text field))
      (lit "reason") (text reason)

unfoldable pub new_rate_limit_error : ℕ → Str → Error
unfolding new_error with_detail
new_rate_limit_error limit window =
    with_detail
      (with_detail
        (new_error (lit "RATE_LIMIT_EXCEEDED") (lit "rate limit exceeded") 429
          (cause (sentinel rate_limited)))
        (lit "limit") (number limit))
      (lit "window") (text window)

unfoldable pub new_rpc_error : Str → Error → Error
unfolding new_error with_detail
new_rpc_error method e =
    with_detail (new_error (lit "RPC_ERROR") (lit "rpc call failed: " ++ method) 502 (cause e))
      (lit "method") (text method)

unfoldable pub new_decryption_error : Str → Error → Error
unfolding new_error with_detail
new_decryption_error txid e =
    with_detail (new_error (lit "DECRYPTION_FAILED") (lit "failed to decrypt data") 500 (cause e))
      (lit "txid") (text txid)

unfoldable pub new_chain_error : Str → Str → Error
unfolding new_error with_detail
new_chain_error chain_id reason =
    with_detail
      (with_detail (new_error (lit "CHAIN_ERROR") (lit "chain error: " ++ reason) 400 no_cause)
        (lit "chain_id") (text chain_id))
      (lit "reason") (text reason)

unfoldable pub new_decompression_error : Str → Error
unfolding new_error with_detail
new_decompression_error reason =
    with_detail
      (new_error (lit "DECOMPRESSION_FAILED") (lit "decompression failed: " ++ reason) 500
        (cause (sentinel decompression_failed)))
      (lit "reason") (text reason)

-- `HTTPStatus`, of a domain error.
unfoldable pub http_status : Error → Option ℕ
http_status (domain code message c status details) = some status
http_status e = none

-- The detail under a key, of a domain error.
unfoldable pub detail : Str → Error → Option Detail
unfolding lookup
detail key (domain code message c status details) = lookup list_eq.dec key details
detail key e = none
