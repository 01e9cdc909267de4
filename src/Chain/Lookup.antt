-- ===== src/Chain/Lookup.antt =====
-- What a new manager knows.
use mathlib.Core.List.{Permᴰ}
use verus_gateway.Base.{
  suc, ◌≡◌, refl, ap, ◌∙◌, inl, inr, none, some, List, [], ◌∷◌, arith, list_eq, nat_eq, length,
  if◌then◌else◌, Option-cases,
}
use verus_gateway.Base.Bytes.{Str}
use verus_gateway.Domain.Errors.{ok}
use verus_gateway.Rpc.{Client}
use verus_gateway.Chain.{
  ChainConfig, ChainsConfig, Chain, Manager, new_chain, new_chains, entry, new_manager, get_chain,
  get_default_chain, first_id,
}

-- No ID stands twice.
abbrev pub IsMap {ℓ} : {A : Type ℓ} → List (Str × A) → Type ℓ
IsMap [] = Unit
IsMap ((id, _) ∷ rest) = (entry id rest ≡ none) × IsMap rest

pub entry-new_chains :
    (id : Str) (l : List (Str × ChainConfig))
    → IsMap l
    → entry id (new_chains l) ≡ elim (entry id l) [
      | none ↦ none
      | some cfg ↦ if cfg.enabled then some (new_chain id cfg) else none
    ]
unfolding entry new_chains
entry-new_chains id [] m = refl
entry-new_chains id ((i, cfg) ∷ l) (fresh, m) = ground (arith, entry-new_chains id l m)

-- An order of a map has the same keys.
entry-perm {ℓ} :
    {A : Type ℓ} {l l' : List (Str × A)}
    → Permᴰ l l'
    → (id : Str) → entry id l ≡ none
    → entry id l' ≡ none
unfolding entry
entry-perm Permᴰ.nil id h = h
entry-perm (Permᴰ.cons e p) id h = ground (arith, ap (λ x. x.0) e, entry-perm p id)
entry-perm (Permᴰ.swap e f) id h = ground (arith, ap (λ x. x.0) e, ap (λ x. x.0) f)
entry-perm (Permᴰ.trans p q) id h = entry-perm q id (entry-perm p id h)

first_id-entry : (l : List (Str × Chain)) → entry (first_id l) l ≡ none → l ≡ []
unfolding entry first_id
first_id-entry [] h = refl
first_id-entry ((i, c) ∷ l) h = absurd (ground arith)

pub length-perm : {l l' : List (Str × Chain)} → Permᴰ l l' → length l ≡ length l'
length-perm Permᴰ.nil = refl
length-perm (Permᴰ.cons e p) = ap suc (length-perm p)
length-perm (Permᴰ.swap e f) = refl
length-perm (Permᴰ.trans p q) = length-perm p ∙ length-perm q

order-entry : (l l' : List (Str × Chain)) → Permᴰ l l' → entry (first_id l') l ≡ none → length l ≡ 0
order-entry l l' p h = length-perm p ∙ ap length (first_id-entry l' (entry-perm p (first_id l') h))

get_chain-some :
    (m : Manager) (id : Str) (chain : Chain)
    → entry id m.chains ≡ some chain
    → get_chain m id ≡ ok chain.client
unfolding get_chain
get_chain-some m id chain h = rw (h, get_chain) refl

module _ (order : List (Str × Chain) → List (Str × Chain)) (cfg : ChainsConfig) (m : Manager) where
  pub new_manager-chains : new_manager order cfg ≡ ok m → m.chains ≡ new_chains cfg.chains
  unfolding new_manager
  new_manager-chains h = ground arith

  -- A new manager has its default chain, in whatever order the chains are gone through.
  pub new_manager-get_default_chain :
      Permᴰ (new_chains cfg.chains) (order (new_chains cfg.chains))
      → new_manager order cfg ≡ ok m
      → (client : Client) × (get_default_chain m ≡ ok client)
  unfolding new_manager get_default_chain
  new_manager-get_default_chain p h = elim (Option-cases (entry m.default_chain m.chains)) [
    | inr (chain, s) ↦ (chain.client, get_chain-some m m.default_chain chain s)
    | inl n ↦
        absurd
          (ground (arith, order-entry (new_chains cfg.chains) (order (new_chains cfg.chains)) p))
  ]
