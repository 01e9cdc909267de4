-- ===== src/Http/Auth/Guard.antt =====
-- The middlewares of internal/http/middleware/auth.go as functions from handlers to handlers.
use verus_gateway.Base.{
  ◌≡◌, ◌⊎◌, refl, ap, false, inl, inr, none, some, List, [], ◌++◌, nat_eq, list_eq, ℕ_discrete,
  list_dec, All, if◌then◌else◌, Bool-cases,
}
use verus_gateway.Base.Bytes.{Bytes, Str, lit}
use verus_gateway.Domain.Request.{is_empty}
use verus_gateway.Http.Middleware.{
  Request, Writer, returned, Handler, set, value_of, set_header, write_header, write,
}
use verus_gateway.Http.Middleware.Headers.{value_of-set, write-write_header}
use verus_gateway.Http.Auth.{ApiKeyAuth, new_api_key_auth, api_key, require, optional}
use verus_gateway.Http.Auth.Access.{Has, require-new_iff}

unfoldable pub key_required : Bytes
key_required = lit "{\"error\":\"UNAUTHORIZED\",\"message\":\"Valid API key required\"}"

-- The refusal of `Require`.
unfoldable pub refuse_required : Writer → Writer
refuse_required w = write key_required (
    write_header 401 (
      set_header (lit "WWW-Authenticate") (lit "Bearer realm=\"Verus Gateway\"")
        (set_header (lit "Content-Type") (lit "application/json") w)))

-- `Require`
unfoldable pub require_key : ApiKeyAuth → Handler → Handler
require_key a next r w = if require a r.headers then next r w else returned (refuse_required w)

unfoldable pub invalid_key : Bytes
invalid_key = lit "{\"error\":\"UNAUTHORIZED\",\"message\":\"Invalid API key\"}"

-- The refusal of `Optional`.
unfoldable pub refuse_invalid : Writer → Writer
refuse_invalid w =
    write invalid_key
      (write_header 401 (set_header (lit "Content-Type") (lit "application/json") w))

-- `Optional`
unfoldable pub optional_key : ApiKeyAuth → Handler → Handler
optional_key a next r w = if optional a r.headers then next r w else returned (refuse_invalid w)

-- A response with status 401 that asks for a key.
pub record IsRefused (before out : Writer) : Type 0 where
  pub headers : List (Str × Str)
  pub sent : out.sent ≡ some (401, headers)
  pub challenge :
      value_of (lit "WWW-Authenticate") headers ≡ some (lit "Bearer realm=\"Verus Gateway\"")
  pub body : out.body ≡ before.body ++ key_required

refuse_required-IsRefused : (w : Writer) → w.sent ≡ none → IsRefused w (refuse_required w)
unfolding refuse_required lit list_dec ℕ_discrete
refuse_required-IsRefused w unsent =
    let headers =
      set (lit "WWW-Authenticate") (lit "Bearer realm=\"Verus Gateway\"")
        (set (lit "Content-Type") (lit "application/json") w.headers) in
    let written = write-write_header key_required 401 (record w { headers = headers }) unsent in
    record {
      headers = headers;
      sent = ap (λ x. x.sent) written;
      challenge = simp value_of-set;
      body = ap (λ x. x.body) written;
    }

module _ (api_keys : List Str) (header_name : Str) (r : Request) where
  abbrev pub auth : ApiKeyAuth
  auth = new_api_key_auth api_keys header_name

  abbrev pub key : Str
  key = api_key auth.header r.headers

  -- Where no key is configured but empty ones, or the request brings one of the configured keys.
  abbrev pub MayPass : Type 0
  MayPass = All (λ k. k ≡ []) api_keys ⊎ ((is_empty key ≡ false) × Has key api_keys)

  -- A request that may pass is the next handler's. Any other does not reach it: the response is the same
  -- for all handlers, with status 401 and the header that asks for a key.
  pub require_key-new :
      (w : Writer)
      → w.sent ≡ none
      → (MayPass → (next : Handler) → require_key auth next r w ≡ next r w)
        × ((¬ MayPass)
            → (out : Writer) × ((next : Handler) → require_key auth next r w ≡ returned out)
              × IsRefused w out)
  unfolding require_key
  require_key-new w unsent =
      let passes = require-new_iff api_keys header_name r.headers in
      elim (Bool-cases (require auth r.headers)) [
        | inl on ↦ (λ may next. rw on refl, λ no. absurd (no (passes.0 on)))
        | inr off ↦ (
          λ may. absurd (cc (passes.1 may, off)),
          λ no. (refuse_required w, λ next. rw off refl, refuse_required-IsRefused w unsent),
        )
      ]
