-- ===== src/Http/Auth/Access.antt =====
-- Who is let through.
use verus_gateway.Base.{
  ◌≡◌, ◌≢◌, ◌⊎◌, ◌↔◌, refl, ap, sym, true, false, inl, inr, List, [], ◌∷◌, ◌++◌, arith, ◌==◌,
  list_eq, nat_eq, if◌then◌else◌, length, Bool-cases,
}
use verus_gateway.Base.Bytes.{Str}
use verus_gateway.Domain.Request.{is_empty}
use verus_gateway.Base.{All}
use verus_gateway.Http.Auth.{add_key, add_keys, new_api_key_auth, validate_key, api_key, require}

-- The key is one of the configured ones.
abbrev pub Has : Str → List Str → Type 0
Has k keys = (a : List Str) × (b : List Str) × (keys ≡ a ++ (k ∷ b))

pub Has-cons : (k key : Str) (keys : List Str) → Has k (key ∷ keys) ↔ ((k ≡ key) ⊎ Has k keys)
Has-cons k key keys = (to, from)
  where
    to : Has k (key ∷ keys) → (k ≡ key) ⊎ Has k keys
    to ([], b, e) = inl (cc e)
    to (x ∷ a, b, e) = inr (a, b, cc e)

    from : (k ≡ key) ⊎ Has k keys → Has k (key ∷ keys)
    from (inl e) = ([], keys, ap (λ z. z ∷ keys) (sym e))
    from (inr (a, b, e)) = (key ∷ a, b, ap (◌∷◌ key) e)

pub Has-nil : (k : Str) → ¬ Has k []
Has-nil k ([], b, e) = cc e
Has-nil k (x ∷ a, b, e) = cc e

validate_key-add_key :
    (p key : Str) (keys : List Str)
    → validate_key p (add_key key keys) ≡ (if p == key then true else validate_key p keys)
unfolding validate_key add_key
validate_key-add_key p key [] = ground arith
validate_key-add_key p key (k ∷ keys) = ground (arith, validate_key-add_key p key keys)

add_keys_skip :
    (key : Str) (rest keys : List Str)
    → is_empty key ≡ true
    → add_keys (key ∷ rest) keys ≡ add_keys rest keys
unfolding add_keys
add_keys_skip key rest keys e = rw e refl

add_keys_take :
    (key : Str) (rest keys : List Str)
    → is_empty key ≡ false
    → add_keys (key ∷ rest) keys ≡ add_keys rest (add_key key keys)
unfolding add_keys
add_keys_take key rest keys e = rw e refl

validate_key-nil : (p : Str) → validate_key p [] ≡ false
unfolding validate_key
validate_key-nil p = refl

validate_key-add_keys :
    (p : Str) (rest keys : List Str)
    → is_empty p ≡ false
    → (validate_key p (add_keys rest keys) ≡ true) ↔ (Has p rest ⊎ (validate_key p keys ≡ true))
unfolding add_keys
validate_key-add_keys p [] keys n = (inr, λ h. elim h [ inl x ↦ absurd (Has-nil p x) | inr v ↦ v ])
validate_key-add_keys p (key ∷ rest) keys n = elim (Bool-cases (is_empty key)) [
  | inl e ↦
      rw (add_keys_skip key rest keys e)
        (ground (arith, validate_key-add_keys p rest keys n, Has-cons p key rest))
  | inr e ↦ rw (add_keys_take key rest keys e) (
      ground (
        arith,
        validate_key-add_keys p rest (add_key key keys) n,
        Has-cons p key rest,
        validate_key-add_key p key keys,
      ))
]

length-add_key : (key : Str) (keys : List Str) → length (add_key key keys) ≢ 0
unfolding add_key
length-add_key key [] h = omega arith
length-add_key key (k ∷ keys) h = ground (arith)

length-add_keys :
    (rest keys : List Str)
    → (length (add_keys rest keys) ≡ 0) ↔ (All (λ k. k ≡ []) rest × (length keys ≡ 0))
unfolding add_keys
length-add_keys [] keys = (λ h. (tt, h), λ h. h.1)
length-add_keys ([] ∷ rest) keys = ground (arith, length-add_keys rest keys)
length-add_keys ((c ∷ key) ∷ rest) keys = (
  λ h.
      absurd
        (length-add_key (c ∷ key) keys ((length-add_keys rest (add_key (c ∷ key) keys)).0 h).1),
  λ h. absurd (cc h.0.0),
)

-- `Require` lets a request through exactly if no configured key is more than an empty text, or the
-- key that the request brings is not empty and one of those that are configured.
pub require-new_iff :
    (api_keys : List Str) (header_name : Str) (headers : Str → Str)
    → let a = new_api_key_auth api_keys header_name in
      let key = api_key a.header headers in
      (require a headers ≡ true)
      ↔ (All (λ k. k ≡ []) api_keys ⊎ ((is_empty key ≡ false) × Has key api_keys))
unfolding new_api_key_auth require
require-new_iff api_keys header_name headers =
    let a = new_api_key_auth api_keys header_name in
    let key = api_key a.header headers in
    elim (Bool-cases (is_empty key)) [
      | inl e ↦ ground (arith, length-add_keys api_keys [])
      | inr e ↦ ground (
        arith,
        length-add_keys api_keys [],
        validate_key-add_keys key api_keys [] e,
        validate_key-nil key,
      )
    ]
