-- ===== src/Chain/Checks.antt =====
-- The checks of all chains at once, whatever the order of their ends.
use mathlib.Core.List.{Permᴰ}
use verus_gateway.Base.{
  ◌≡◌, refl, sym, ap, ◌∙◌, inl, inr, Bool, true, false, Option, none, some, List, [], ◌∷◌, ◌++◌,
  arith, ◌==◌, list_eq, nat_eq, if◌then◌else◌, Bool-cases, Option-cases,
}
use verus_gateway.Base.Bytes.{Str, lit}
use verus_gateway.Domain.Errors.{Error, new_chain_error, error_text}
use verus_gateway.Rpc.{Client}
use verus_gateway.Chain.{
  Chain, Manager, entry, put, ids, write_results, health_check, health_check_all, get_chain,
}
use verus_gateway.Chain.Lookup.{IsMap}

pub has : Str → List Str → Bool
has id [] = false
has id (i ∷ rest) = let later = has id rest in if id == i then true else later

has-perm : {l l' : List Str} → Permᴰ l l' → (id : Str) → has id l ≡ has id l'
unfolding has
has-perm Permᴰ.nil id = refl
has-perm (Permᴰ.cons e p) id = ground (arith, e, has-perm p id)
has-perm (Permᴰ.swap e f) id = ground (arith, e, f)
has-perm (Permᴰ.trans p q) id = has-perm p id ∙ has-perm q id

module _ {ℓ} {A : Type ℓ} where
  pub entry-put :
      (asked key : Str) (value : A) (l : List (Str × A))
      → entry asked (put key value l) ≡ (if asked == key then some value else entry asked l)
  unfolding entry put
  entry-put asked key value [] = ground arith
  entry-put asked key value ((k, v) ∷ l) = ground (arith, entry-put asked key value l)

  pub put-IsMap : (key : Str) (value : A) (l : List (Str × A)) → IsMap l → IsMap (put key value l)
  unfolding entry put
  put-IsMap key value [] m = (refl, tt)
  put-IsMap key value ((k, v) ∷ l) (fresh, m) = elim (Bool-cases (key == k)) [
    | inl same ↦ rw same (fresh, m)
    | inr other ↦ rw other (ground (arith, entry-put k key value l), put-IsMap key value l m)
  ]

module _ (check : Str → Option Error) where
  entry-write_results :
      (asked : Str) (l : List Str) (results : List (Str × Option Error))
      → entry asked (write_results check l results)
        ≡ (if has asked l then some (check asked) else entry asked results)
  unfolding write_results has
  entry-write_results asked [] results = refl
  entry-write_results asked (id ∷ l) results = ground (
    arith,
    entry-write_results asked l (put id (check id) results),
    entry-put asked id (check id) results,
  )

  pub write_results-IsMap :
      (l : List Str) (results : List (Str × Option Error))
      → IsMap results
      → IsMap (write_results check l results)
  unfolding write_results
  write_results-IsMap [] results m = m
  write_results-IsMap (id ∷ l) results m =
      write_results-IsMap l (put id (check id) results) (put-IsMap id (check id) results m)

has-ids :
    (asked : Str) (l : List (Str × Chain))
    → has asked (ids l) ≡ elim (entry asked l) [ none ↦ false | some chain ↦ true ]
unfolding has ids entry
has-ids asked [] = refl
has-ids asked ((id, c) ∷ l) = ground (arith, has-ids asked l)

ids-perm : {l l' : List (Str × Chain)} → Permᴰ l l' → Permᴰ (ids l) (ids l')
unfolding ids
ids-perm Permᴰ.nil = Permᴰ.nil
ids-perm (Permᴰ.cons e p) = Permᴰ.cons (ap (λ x. x.0) e) (ids-perm p)
ids-perm (Permᴰ.swap e f) = Permᴰ.swap (ap (λ x. x.0) e) (ap (λ x. x.0) f)
ids-perm (Permᴰ.trans p q) = Permᴰ.trans (ids-perm p) (ids-perm q)

-- What the check of a chain gives.
abbrev pub checked : (Str → Client → Option Error) → Str → Chain → Option Error
checked get_info id chain = elim (get_info id chain.client) [
  | some e ↦ some (new_chain_error id (lit "health check failed: " ++ error_text e))
  | none ↦ none
]

health_check-some :
    (get_info : Str → Client → Option Error) (m : Manager) (id : Str) (chain : Chain)
    → entry id m.chains ≡ some chain
    → health_check (get_info id) m id ≡ checked get_info id chain
unfolding health_check get_chain
health_check-some get_info m id chain h = rw (h, health_check, get_chain) refl

module _ (order : List (Str × Chain) → List (Str × Chain)) (get_info : Str → Client → Option Error)
    (finish : List Str → List Str) (m : Manager) where
  abbrev pub results : List (Str × Option Error)
  results = health_check_all order get_info finish m

  pub health_check_all-IsMap : IsMap results
  unfolding health_check_all
  health_check_all-IsMap =
      write_results-IsMap (λ i. health_check (get_info i) m i) (finish (ids (order m.chains))) [] tt

  -- In whatever order the chains are gone through and the goroutines end, the results have an entry for
  -- each chain, that of its own check, and no other.
  pub health_check_all_lem :
      Permᴰ m.chains (order m.chains)
      → Permᴰ (ids (order m.chains)) (finish (ids (order m.chains)))
      → (id : Str)
      → entry id results
        ≡ elim (entry id m.chains) [ none ↦ none | some chain ↦ some (checked get_info id chain) ]
  unfolding health_check_all entry
  health_check_all_lem p q id =
      let check : Str → Option Error = λ i. health_check (get_info i) m i in
      let started : has id (finish (ids (order m.chains))) ≡ has id (ids m.chains) =
        sym (has-perm (Permᴰ.trans (ids-perm p) q) id) in
      let e = entry-write_results check id (finish (ids (order m.chains))) [] in
      elim (Option-cases (entry id m.chains)) [
        | inl n ↦ e ∙ ground (arith, started, has-ids id m.chains)
        | inr (chain, s) ↦
            e
            ∙ ground (arith, started, has-ids id m.chains, health_check-some get_info m id chain s)
      ]
