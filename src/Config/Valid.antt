-- ===== src/Config/Valid.antt =====
-- Which configurations are valid.
use verus_gateway.Base.{
  ◌^◌, ◌≡◌, ◌≢◌, ◌<◌, ◌⊎◌, ◌↔◌, refl, true, false, inl, inr, none, List, [], ◌∷◌, arith, nat_eq,
  list_eq, length, All, Bool-cases, Option-cases,
}
use verus_gateway.Base.Bytes.{Str}
use verus_gateway.Base.Int.{pos, ◌≤ℤ◌}
use verus_gateway.Domain.Request.{is_empty}
use verus_gateway.Chain.{ChainConfig, ChainsConfig, entry}
use verus_gateway.Http.Auth.Access.{Has, Has-cons, Has-nil}
use verus_gateway.Config.{
  Config, validate_chain, validate_chains, one_of, valid_cache_types, valid_levels, lacks_default,
  validate,
}

-- What an enabled chain needs.
pub record IsComplete (cc : ChainConfig) : Type 0 where
  pub url : cc.rpc_url ≢ []
  pub user : cc.rpc_user ≢ []
  pub password : cc.rpc_password ≢ []
  pub timeout : pos (10 ^ 9) ≤ℤ cc.rpc_timeout
  pub retries : (pos 0 ≤ℤ cc.max_retries) × (cc.max_retries ≤ℤ pos 10)

pub is_empty-eq-false_iff : (s : Str) → (is_empty s ≡ false) ↔ (s ≢ [])
is_empty-eq-false_iff [] = (λ h e. cc h, λ n. absurd (n refl))
is_empty-eq-false_iff (c ∷ s) = (λ h e. cc e, λ n. refl)

pub empty-nil : (s : Str) → is_empty s ≡ true → s ≡ []
empty-nil [] h = refl
empty-nil (c ∷ s) h = cc h

validate_chain_iff :
    (cc : ChainConfig) → (validate_chain cc ≡ none) ↔ (cc.enabled ≡ true → IsComplete cc)
unfolding validate_chain
validate_chain_iff cc = (to, from)
  where
    to : validate_chain cc ≡ none → cc.enabled ≡ true → IsComplete cc
    to h on = record {
      url = (is_empty-eq-false_iff cc.rpc_url).0 (ground arith);
      user = (is_empty-eq-false_iff cc.rpc_user).0 (ground arith);
      password = (is_empty-eq-false_iff cc.rpc_password).0 (ground arith);
      timeout = ground arith;
      retries = ground arith;
    }

    from : (cc.enabled ≡ true → IsComplete cc) → validate_chain cc ≡ none
    from f = elim (Bool-cases cc.enabled) [
      | inr off ↦ ground arith
      | inl on ↦
          let w = f on in
          ground (
            arith,
            (is_empty-eq-false_iff cc.rpc_url).1 w.url,
            (is_empty-eq-false_iff cc.rpc_user).1 w.user,
            (is_empty-eq-false_iff cc.rpc_password).1 w.password,
            w.timeout,
            w.retries,
          )
    ]

pub validate_chains_iff :
    (l : List (Str × ChainConfig))
    → (validate_chains l ≡ none) ↔ All (λ row. row.1.enabled ≡ true → IsComplete row.1) l
unfolding validate_chains
validate_chains_iff [] = (λ h. tt, λ h. refl)
validate_chains_iff ((id, cc) ∷ l) =
    let ih = validate_chains_iff l in
    let one = validate_chain_iff cc in
    (λ h. (one.0 (ground arith), ih.0 (ground arith)), λ (a, b). ground (arith, one.1 a, ih.1 b))

one_of_iff : (s : Str) (texts : List Str) → (one_of s texts ≡ true) ↔ Has s texts
unfolding one_of
one_of_iff s [] = (λ h. cc h, λ h. absurd (Has-nil s h))
one_of_iff s (t ∷ texts) = ground (arith, one_of_iff s texts, Has-cons s t texts)

-- A configuration of this form: a port of 16 bits, at least one chain, a default chain that is named
-- nowhere or configured, all that the enabled chains need, and a known cache type and log level.
pub record IsValid (c : Config) : Type 0 where
  pub port : (pos 1 ≤ℤ c.port) × (c.port ≤ℤ pos 65535)
  pub some_chain : 0 < length c.chains.chains
  pub default : (c.chains.default ≡ []) ⊎ (entry c.chains.default c.chains.chains ≢ none)
  pub complete : All (λ row. row.1.enabled ≡ true → IsComplete row.1) c.chains.chains
  pub cache : Has c.cache.kind valid_cache_types
  pub level : Has c.level valid_levels

pub lacks_default_iff :
    (c : ChainsConfig)
    → (lacks_default c ≡ false) ↔ ((c.default ≡ []) ⊎ (entry c.default c.chains ≢ none))
unfolding lacks_default
lacks_default_iff c = elim (Bool-cases (is_empty c.default)) [
  | inl e ↦ (λ h. inl (empty-nil c.default e), λ h. ground arith)
  | inr n ↦ (
    λ h. inr (λ k. ground arith),
    λ h. elim h [
      | inl e ↦ absurd ((is_empty-eq-false_iff c.default).0 n e)
      | inr k ↦ elim (Option-cases (entry c.default c.chains)) [
        | inl z ↦ absurd (k z)
        | inr (cfg, z) ↦ ground arith
      ]
    ],
  )
]

-- `Validate` accepts exactly the configurations of this form.
pub validate-IsValid : (c : Config) → (validate c ≡ none) ↔ IsValid c
unfolding validate
validate-IsValid c = (to, from)
  where
    to : validate c ≡ none → IsValid c
    to h = record {
      port = ground arith;
      some_chain = ground arith;
      default = (lacks_default_iff c.chains).0 (ground arith);
      complete = (validate_chains_iff c.chains.chains).0 (ground arith);
      cache = (one_of_iff c.cache.kind valid_cache_types).0 (ground arith);
      level = (one_of_iff c.level valid_levels).0 (ground arith);
    }

    from : IsValid c → validate c ≡ none
    from w = ground (
      arith,
      w.port,
      w.some_chain,
      (lacks_default_iff c.chains).1 w.default,
      (validate_chains_iff c.chains.chains).1 w.complete,
      (one_of_iff c.cache.kind valid_cache_types).1 w.cache,
      (one_of_iff c.level valid_levels).1 w.level,
    )
