-- ===== src/Http/AdminHandler/Listing.antt =====
-- The list of chains that a client gets.
use mathlib.Core.List.{Permᴰ}
use mathlib.Core.Path.{subst}
use verus_gateway.Base.{
  ℕ, suc, ◌+◌, ◌≡◌, refl, sym, ap, ◌∙◌, inl, inr, none, some, List, [], ◌∷◌, arith, ◌==◌, list_eq,
  nat_eq, if◌then◌else◌, Bool-cases, All, All-map, length, map, not,
}
use verus_gateway.Base.Bytes.{Str}
use verus_gateway.Domain.Errors.{ok}
use verus_gateway.Chain.{
  ChainConfig, ChainsConfig, Chain, Manager, entry, ids, list_chains, get_chain_info,
  get_default_chain_id, new_manager, new_chains, get_default_chain, get_chain,
}
use verus_gateway.Chain.Lookup.{
  IsMap, entry-new_chains, new_manager-chains, new_manager-get_default_chain, length-perm,
}
use verus_gateway.Rpc.{Client}
use verus_gateway.Http.AdminHandler.{
  ChainItem, json_response, chains_json, chain_items, list_chains_response,
}

All-perm {ℓ κ} : {A : Type ℓ} (P : A → Type κ) {l l' : List A} → Permᴰ l l' → All P l → All P l'
All-perm P Permᴰ.nil h = h
All-perm P (Permᴰ.cons e p) (x, xs) = (subst P e x, All-perm P p xs)
All-perm P (Permᴰ.swap e f) (x, (y, xs)) = (subst P f y, (subst P e x, xs))
All-perm P (Permᴰ.trans p q) h = All-perm P q (All-perm P p h)

abbrev pub item : Manager → Str × Chain → ChainItem
item m (id, chain) = record {
  id = chain.id;
  name = chain.name;
  default = chain.id == m.default_chain;
}

chain_items-ids :
    (m : Manager) (l : List (Str × Chain))
    → All (λ p. entry p.0 m.chains ≡ some p.1) l
    → chain_items m (ids l) ≡ map (item m) l
unfolding chain_items ids get_chain_info get_default_chain_id
chain_items-ids m [] h = refl
chain_items-ids m ((id, chain) ∷ l) (here, rest) = ground (arith, here, chain_items-ids m l rest)

entries_found : (l : List (Str × Chain)) → IsMap l → All (λ p. entry p.0 l ≡ some p.1) l
unfolding entry
entries_found [] m = tt
entries_found ((id, chain) ∷ l) (fresh, m) =
    (ground arith, All-map _ _ l (λ p h. ground (arith, h)) (entries_found l m))

-- Each chain has the ID under which it stands.
abbrev IsNamed : List (Str × Chain) → Type 0
IsNamed = All (λ p. p.1.id ≡ p.0)

new_chains-IsNamed : (l : List (Str × ChainConfig)) → IsNamed (new_chains l)
unfolding new_chains
new_chains-IsNamed [] = tt
new_chains-IsNamed ((id, cfg) ∷ l) = elim (Bool-cases (not cfg.enabled)) [
  | inl off ↦ rw off (new_chains-IsNamed l)
  | inr on ↦ rw on (refl, new_chains-IsNamed l)
]

new_chains-IsMap : (l : List (Str × ChainConfig)) → IsMap l → IsMap (new_chains l)
unfolding new_chains
new_chains-IsMap [] m = tt
new_chains-IsMap ((id, cfg) ∷ l) (fresh, m) = elim (Bool-cases (not cfg.enabled)) [
  | inl off ↦ rw off (new_chains-IsMap l m)
  | inr on ↦ rw on (entry-new_chains id l m ∙ rw fresh refl, new_chains-IsMap l m)
]

-- How many items are marked as the default.
pub defaults : List ChainItem → ℕ
defaults [] = 0
defaults (i ∷ items) = (if i.default then 1 else 0) + defaults items

defaults-perm :
    (m : Manager) {l l' : List (Str × Chain)}
    → Permᴰ l l'
    → defaults (map (item m) l) ≡ defaults (map (item m) l')
unfolding defaults
defaults-perm m Permᴰ.nil = refl
defaults-perm m (Permᴰ.cons e p) = ground (arith, e, defaults-perm m p)
defaults-perm m (Permᴰ.swap e f) = ground (arith, e, f)
defaults-perm m (Permᴰ.trans p q) = defaults-perm m p ∙ defaults-perm m q

defaults-entry :
    (m : Manager) (l : List (Str × Chain))
    → IsMap l
    → IsNamed l
    → defaults (map (item m) l) ≡ elim (entry m.default_chain l) [ none ↦ 0 | some chain ↦ 1 ]
unfolding defaults entry
defaults-entry m [] u n = refl
defaults-entry m ((id, chain) ∷ l) (fresh, u) (name, n) = ground (arith, defaults-entry m l u n)

default_found :
    (m : Manager) (client : Client)
    → get_default_chain m ≡ ok client
    → elim (entry m.default_chain m.chains) as (λ x. ℕ) [ none ↦ 0 | some chain ↦ 1 ] ≡ 1
unfolding get_default_chain get_chain
default_found m client h = ground arith

length-map {ℓ κ} : {A : Type ℓ} {B : Type κ} (f : A → B) (l : List A) → length (map f l) ≡ length l
length-map f [] = refl
length-map f (x ∷ l) = ap suc (length-map f l)

module _ (order : List (Str × Chain) → List (Str × Chain)) (cfg : ChainsConfig) (m : Manager) where
  -- A new manager lists each of its chains once, by its ID and name, with their number, and marks
  -- exactly one as the default.
  pub list_chains_response_lem :
      IsMap cfg.chains
      → Permᴰ (new_chains cfg.chains) (order (new_chains cfg.chains))
      → new_manager order cfg ≡ ok m
      → let items = map (item m) (order m.chains) in
        (list_chains_response order m ≡ json_response 200 (chains_json items (length items)))
        × (length items ≡ length (new_chains cfg.chains))
        × (defaults items ≡ 1)
  unfolding list_chains_response list_chains
  list_chains_response_lem u p h =
      let same = new_manager-chains order cfg m h in
      let p' : Permᴰ m.chains (order m.chains) = subst (λ l. Permᴰ l (order l)) (sym same) p in
      let u' : IsMap m.chains = subst IsMap (sym same) (new_chains-IsMap cfg.chains u) in
      let n' : IsNamed m.chains = subst IsNamed (sym same) (new_chains-IsNamed cfg.chains) in
      let (client, d) = new_manager-get_default_chain order cfg m p h in
      (
        ap (λ items. json_response 200 (chains_json items (length items)))
            (chain_items-ids m (order m.chains) (All-perm _ p' (entries_found m.chains u'))),
        length-map (item m) (order m.chains) ∙ sym (length-perm p') ∙ ap length same,
        sym (defaults-perm m p') ∙ defaults-entry m m.chains u' n' ∙ default_found m client d,
      )
