-- ===== src/Http/Middleware/Headers.antt =====
-- The headers of a response, and what the middlewares that only pass a request on make of it.
use verus_gateway.Base.{
  ℕ, ◌≡◌, refl, ap, Bool, none, ◌++◌, true, false, some, List, [], ◌∷◌, arith, ◌==◌, nat_eq,
  list_eq, if◌then◌else◌, ℕ_discrete, list_dec,
}
use verus_gateway.Base.Bytes.{Bytes, Str, lit}
use verus_gateway.Http.Middleware.{
  Request, Writer, Handler, send, write_header, write, set, value_of, secured, is_https,
  security_headers,
}

pub value_of-set :
    (asked key value : Str) (headers : List (Str × Str))
    → value_of asked (set key value headers)
      ≡ (if asked == key then some value else value_of asked headers)
unfolding value_of set
value_of-set asked key value [] = ground arith
value_of-set asked key value ((k, v) ∷ headers) =
    ground (arith, value_of-set asked key value headers)

write_header-fresh :
    (n : ℕ) (w : Writer)
    → w.sent ≡ none
    → write_header n w ≡ record w { sent = some (n, w.headers); last_status = some n }
unfolding write_header send
write_header-fresh n w h = rw (h, write_header, send) refl

-- A response that is written at once, on a writer that nothing went out of.
pub write-write_header :
    (bytes : Bytes) (n : ℕ) (w : Writer)
    → w.sent ≡ none
    → write bytes (write_header n w)
      ≡ record w { sent = some (n, w.headers); last_status = some n; body = w.body ++ bytes }
unfolding write send
write-write_header bytes n w h = ap (write bytes) (write_header-fresh n w h)

-- What a client is told about a response.
pub record IsSecured (https : Bool) (before after : List (Str × Str)) : Type 0 where
  pub sniffing : value_of (lit "X-Content-Type-Options") after ≡ some (lit "nosniff")
  pub frames : value_of (lit "X-Frame-Options") after ≡ some (lit "DENY")
  pub scripts : value_of (lit "X-XSS-Protection") after ≡ some (lit "1; mode=block")
  pub transport : value_of (lit "Strict-Transport-Security") after ≡ (
      if https
      then some (lit "max-age=31536000; includeSubDomains; preload")
      else value_of (lit "Strict-Transport-Security") before)
  pub id : value_of (lit "X-Request-ID") after ≡ value_of (lit "X-Request-ID") before

pub secured-IsSecured :
    (https : Bool) (headers : List (Str × Str)) → IsSecured https headers (secured https headers)
unfolding secured lit ℕ_discrete list_dec
secured-IsSecured true headers = record {
  sniffing = simp value_of-set;
  frames = simp value_of-set;
  scripts = simp value_of-set;
  transport = simp value_of-set;
  id = simp value_of-set;
}
secured-IsSecured false headers = record {
  sniffing = simp value_of-set;
  frames = simp value_of-set;
  scripts = simp value_of-set;
  transport = simp value_of-set;
  id = simp value_of-set;
}

-- The next handler gets the same request and a response with other headers: they forbid sniffing and
-- frames, promise HTTPS exactly if the request came over it, and leave the identifier.
pub security_headers_lem :
    (next : Handler) (r : Request) (w : Writer)
    → (headers : List (Str × Str)) × (security_headers next r w
        ≡ next r (record w { headers = headers }))
      × IsSecured (is_https r) w.headers headers
unfolding security_headers
security_headers_lem next r w = (_, refl, secured-IsSecured (is_https r) w.headers)
