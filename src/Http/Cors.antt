-- ===== src/Http/Cors.antt =====
-- internal/http/middleware/cors.go
pub mod Origins
use mathlib.Core.List.{reverse}
use verus_gateway.Base.{
  ℕ, zero, suc, ◌+◌, ◌-◌, ◌≤◌, ◌<◌, ◌≡◌, ◌≢◌, ◌⊎◌, ◌↔◌, refl, ap, sym, ◌∙◌, Bool, true, false, not,
  ◌&&◌, ◌||◌, inl, inr, Option, none, some, List, [], ◌∷◌, ◌++◌, ltb, leb, arith, ◌==◌, list_eq,
  nat_eq, if◌then◌else◌, length, drop, Bool-cases, Option-cases,
}
use verus_gateway.Base.Bytes.{
  Str, lit, has_prefix, trim_prefix, has_prefix_split, has_prefix-append,
}
use verus_gateway.Domain.Request.{is_empty}
use verus_gateway.Base.Int.{ℤ, pos, ltb_ℤ}

pub record CorsConfig : Type 0 where
  pub allowed_origins : List Str
  pub allowed_methods : List Str
  pub allowed_headers : List Str
  pub exposed_headers : List Str
  pub allow_credentials : Bool
  pub max_age : ℤ

-- `DefaultCORSConfig`
unfoldable pub default_cors_config : CorsConfig
default_cors_config = record {
  allowed_origins = [];
  allowed_methods = lit "GET" ∷ lit "HEAD" ∷ lit "OPTIONS" ∷ [];
  allowed_headers = lit "Accept" ∷ lit "Content-Type" ∷ lit "X-Request-ID" ∷ [];
  exposed_headers = lit "X-Request-ID" ∷ lit "X-Cache-Status" ∷ [];
  allow_credentials = false;
  max_age = pos 3600;
}

-- `strings.HasSuffix(s, t)`, the suffix first.
unfoldable pub has_suffix : Str → Str → Bool
has_suffix t s = leb (length t) (length s) && drop (length s - length t) s == t

-- `strings.Join`
unfoldable pub join : Str → List Str → Str
join sep [] = []
join sep (s ∷ []) = s
join sep (s ∷ t ∷ rest) = s ++ (sep ++ join sep (t ∷ rest))

unfoldable pub origin_matches : Str → Str → Bool
origin_matches origin o =
    if o == lit "*"
    then true
    else if o == origin
    then true
    else has_prefix (lit "*.") o && has_suffix (trim_prefix (lit "*.") o) origin

-- `isOriginAllowed`
unfoldable pub is_origin_allowed : Str → List Str → Bool
is_origin_allowed origin [] = false
is_origin_allowed origin (o ∷ allowed) =
    if origin_matches origin o then true else is_origin_allowed origin allowed

header_if : Bool → Str → Str → List (Str × Str)
header_if set name value = if set then (name, value) ∷ [] else []

-- The middleware: the headers that it sets, and whether the request goes on to the next handler; a
-- preflight gets status 204 and does not. `from_rune` is `string(rune(n))`.
unfoldable pub cors : (ℤ → Str) → CorsConfig → Str → Str → List (Str × Str) × Bool
unfolding header_if
cors from_rune config origin method =
    let allowed = not (is_empty origin) && is_origin_allowed origin config.allowed_origins in
    let shared =
      header_if allowed (lit "Access-Control-Allow-Origin") origin
      ++ (header_if (allowed && config.allow_credentials) (lit "Access-Control-Allow-Credentials")
            (lit "true")
          ++ header_if (allowed && ltb 0 (length config.exposed_headers))
              (lit "Access-Control-Expose-Headers") (join (lit ", ") config.exposed_headers)) in
    if method == lit "OPTIONS"
    then (
      shared
          ++ (header_if (ltb 0 (length config.allowed_methods)) (lit "Access-Control-Allow-Methods")
                (join (lit ", ") config.allowed_methods)
              ++ (header_if (ltb 0 (length config.allowed_headers))
                    (lit "Access-Control-Allow-Headers") (join (lit ", ") config.allowed_headers)
                  ++ header_if (ltb_ℤ (pos 0) config.max_age) (lit "Access-Control-Max-Age")
                      (from_rune config.max_age))),
      false,
    )
    else (shared, true)
