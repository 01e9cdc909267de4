-- ===== src/Http/AdminHandler/Readiness.antt =====
-- When the gateway says that it is ready.
use mathlib.Core.List.{Permᴰ}
use verus_gateway.Base.{
  ◌≡◌, ◌⊎◌, refl, sym, ◌∙◌, inl, inr, Bool, true, false, Option, none, some, List, [], ◌∷◌, arith,
  list_eq, nat_eq, Bool-cases, Option-cases,
}
use verus_gateway.Base.Bytes.{Str}
use verus_gateway.Domain.Errors.{Error, error_text}
use verus_gateway.Rpc.{Client}
use verus_gateway.Chain.{Chain, Manager, entry, put, ids, health_check_all}
use verus_gateway.Chain.Lookup.{IsMap}
use verus_gateway.Chain.Checks.{entry-put, checked, health_check_all_lem, health_check_all-IsMap}
use verus_gateway.Http.AdminHandler.{json_response, ready_json, unhealthy_json, tally, ready}

tally-true :
    (results : List (Str × Option Error)) (healthy : Bool) (errors : List (Str × Str))
    → IsMap results
    → (tally results healthy errors).0 ≡ true
    → (healthy ≡ true) ⊎ ((id : Str) × (entry id results ≡ some none))
unfolding tally entry
tally-true [] healthy errors m h = inl h
tally-true ((i, none) ∷ results) healthy errors m h = inr (i, ground arith)
tally-true ((i, some e) ∷ results) healthy errors (fresh, m) h =
    elim (tally-true results healthy (put i (error_text e) errors) m h) [
      | inl given ↦ inl given
      | inr (id, k) ↦ inr (id, ground arith)
    ]

tally_healthy :
    (results : List (Str × Option Error)) (errors : List (Str × Str))
    → (tally results true errors).0 ≡ true
unfolding tally
tally_healthy [] errors = refl
tally_healthy ((i, none) ∷ results) errors = tally_healthy results errors
tally_healthy ((i, some e) ∷ results) errors = tally_healthy results (put i (error_text e) errors)

tally_found :
    (id : Str) (results : List (Str × Option Error)) (healthy : Bool) (errors : List (Str × Str))
    → entry id results ≡ some none
    → (tally results healthy errors).0 ≡ true
unfolding tally entry
tally_found id [] healthy errors h = cc
tally_found id ((i, none) ∷ results) healthy errors h = tally_healthy results errors
tally_found id ((i, some e) ∷ results) healthy errors h =
    tally_found id results healthy (put i (error_text e) errors) (ground arith)

tally_errors :
    (id : Str) (results : List (Str × Option Error)) (healthy : Bool) (errors : List (Str × Str))
    → IsMap results
    → entry id (tally results healthy errors).1 ≡ elim (entry id results) [
      | none ↦ entry id errors
      | some none ↦ entry id errors
      | some (some e) ↦ some (error_text e)
    ]
unfolding tally entry
tally_errors id [] healthy errors m = refl
tally_errors id ((i, none) ∷ results) healthy errors (fresh, m) =
    ground (arith, tally_errors id results true errors m)
tally_errors id ((i, some e) ∷ results) healthy errors (fresh, m) = ground (
  arith,
  tally_errors id results healthy (put i (error_text e) errors) m,
  entry-put id i (error_text e) errors,
)

entry-nil : (id : Str) → entry {A = Str} id [] ≡ none
unfolding entry
entry-nil id = refl

module _ (order : List (Str × Chain) → List (Str × Chain)) (get_info : Str → Client → Option Error)
    (finish : List Str → List Str) (m : Manager) where
  -- A chain whose check succeeds.
  abbrev pub HasHealthy : Type 0
  HasHealthy =
      (id : Str) × (chain : Chain) × (entry id m.chains ≡ some chain)
      × (checked get_info id chain ≡ none)

  -- The errors tell of each configured chain what its check gave, and of no other.
  abbrev pub Reports : List (Str × Str) → Type 0
  Reports errors =
      (id : Str)
      → entry id errors ≡ elim (entry id m.chains) [
        | none ↦ none
        | some chain ↦ elim (checked get_info id chain) [
          | none ↦ none
          | some e ↦ some (error_text e)
        ]
      ]

  module _ (p : Permᴰ m.chains (order m.chains))
      (q : Permᴰ (ids (order m.chains)) (finish (ids (order m.chains)))) where
    abbrev found : Bool × List (Str × Str)
    found = tally (health_check_all order get_info finish m) false []

    found-HasHealthy : found.0 ≡ true → HasHealthy
    found-HasHealthy h =
        elim (tally-true _ false [] (health_check_all-IsMap order get_info finish m) h) [
          | inl e ↦ absurd (cc e)
          | inr (id, k) ↦
              let e = sym k ∙ health_check_all_lem order get_info finish m p q id in
              elim (Option-cases (entry id m.chains)) [
                | inl n ↦ absurd (ground arith)
                | inr (chain, s) ↦ (id, chain, s, ground arith)
              ]
        ]

    HasHealthy-found : HasHealthy → found.0 ≡ true
    HasHealthy-found (id, chain, s, h) =
        tally_found id _ false []
          (health_check_all_lem order get_info finish m p q id ∙ rw (s, h) refl)

    found-Reports : Reports found.1
    found-Reports id =
        tally_errors id _ false [] (health_check_all-IsMap order get_info finish m)
        ∙ ground (arith, entry-nil id, health_check_all_lem order get_info finish m p q id)

    -- The gateway says that it is ready, with status 200, exactly if the check of some chain succeeds.
    -- Otherwise it answers with status 503 and the error of each chain. The order in which the chains
    -- are gone through and in which their checks end has no part in it.
    pub ready_lem :
        (version : Str)
        → ((ready order get_info finish version m ≡ json_response 200 (ready_json version))
            × HasHealthy)
          ⊎ ((errors : List (Str × Str)) × (ready order get_info finish version m
                ≡ json_response 503 (unhealthy_json errors))
              × Reports errors
              × ¬ HasHealthy)
    unfolding ready
    ready_lem version = elim (Bool-cases found.0) [
      | inl h ↦ inl (rw h refl, found-HasHealthy h)
      | inr h ↦
          inr
            (found.1, rw h refl, found-Reports, λ some_healthy. cc (HasHealthy-found some_healthy))
    ]
