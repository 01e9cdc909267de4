-- ===== src/Http/Auth.antt =====
-- internal/http/middleware/auth.go. `crypto/subtle.ConstantTimeCompare` is 1 for equal texts alone.
pub mod Access
pub mod Guard
use verus_gateway.Base.{
  ℕ, zero, suc, ◌+◌, ◌-◌, ◌≤◌, ◌<◌, ◌≡◌, ◌≢◌, ◌⊎◌, ◌↔◌, refl, ap, sym, ◌∙◌, Bool, true, false, not,
  ◌&&◌, ◌||◌, inl, inr, Option, none, some, List, [], ◌∷◌, ◌++◌, ltb, leb, arith, ◌==◌, list_eq,
  nat_eq, if◌then◌else◌, length, drop, Bool-cases, Option-cases,
}
use verus_gateway.Base.Bytes.{
  Str, lit, has_prefix, trim_prefix, has_prefix_split, has_prefix-append,
}
use verus_gateway.Domain.Request.{is_empty}

-- The map `apiKeys` as the list of its keys.
pub record ApiKeyAuth : Type 0 where
  pub api_keys : List Str
  pub header : Str

-- `keyMap[key] = true`
unfoldable pub add_key : Str → List Str → List Str
add_key key [] = key ∷ []
add_key key (k ∷ keys) = if key == k then k ∷ keys else k ∷ add_key key keys

unfoldable pub add_keys : List Str → List Str → List Str
add_keys [] keys = keys
add_keys (key ∷ rest) keys = add_keys rest (if is_empty key then keys else add_key key keys)

unfoldable pub new_api_key_auth : List Str → Str → ApiKeyAuth
new_api_key_auth api_keys header_name = record {
  api_keys = add_keys api_keys [];
  header = if is_empty header_name then lit "X-API-Key" else header_name;
}

-- `validateKey`
unfoldable pub validate_key : Str → List Str → Bool
validate_key provided [] = false
validate_key provided (valid_key ∷ keys) =
    if provided == valid_key then true else validate_key provided keys

-- The key that a request with these headers brings.
unfoldable pub api_key : Str → (Str → Str) → Str
api_key header headers =
    let auth = headers (lit "Authorization") in
    if is_empty (headers header)
    then (if has_prefix (lit "Bearer ") auth then trim_prefix (lit "Bearer ") auth else [])
    else headers header

-- `Require`: whether the request goes on to the next handler; it gets status 401 otherwise.
unfoldable pub require : ApiKeyAuth → (Str → Str) → Bool
require a headers =
    let key = api_key a.header headers in
    if length a.api_keys == 0
    then true
    else if is_empty key || not (validate_key key a.api_keys)
    then false
    else true

-- `Optional`
unfoldable pub optional : ApiKeyAuth → (Str → Str) → Bool
optional a headers =
    let key = api_key a.header headers in
    if length a.api_keys == 0
    then true
    else if not (is_empty key) && not (validate_key key a.api_keys)
    then false
    else true
