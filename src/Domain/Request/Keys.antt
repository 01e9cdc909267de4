-- ===== src/Domain/Request/Keys.antt =====
-- When two requests share a cache key.
use mathlib.Core.List.{append_cancel_right}
use verus_gateway.Base.{
  ◌≡◌, refl, ap, sym, ◌∙◌, ◌↔◌, ◌≢◌, Bool, true, false, [], ◌∷◌, ◌++◌, arith, if◌then◌else◌, length,
  length-append, All, All-map,
}
use verus_gateway.Base.Bytes.{Byte, Str, lit}
use verus_gateway.Domain.Request.{FileRequest, is_empty, cache_key}
use verus_gateway.Domain.Request.Grammar.{IsChainChar, IsChainId, IsWellFormed}

-- Two texts before a separator that neither holds.
split_at_separator :
    (d : Byte) (a b x y : Str)
    → All (λ c. c ≢ d) a
    → All (λ c. c ≢ d) b
    → a ++ (d ∷ x) ≡ b ++ (d ∷ y)
    → (a ≡ b) × (x ≡ y)
split_at_separator d [] [] x y p q e = ground arith
split_at_separator d [] (c ∷ b) x y p q e = absurd (q.0 (ground arith))
split_at_separator d (c ∷ a) [] x y p q e = absurd (p.0 (ground arith))
split_at_separator d (c ∷ a) (c' ∷ b) x y p q e =
    let (h, k) = split_at_separator d a b x y p.1 q.1 (ground arith) in (ground arith, k)

no_colon : (s : Str) → IsChainId s → All (λ c. c ≢ b':') s
no_colon s h = All-map IsChainChar (λ c. c ≢ b':') s (λ c p. ground arith) h.2

abbrev suffix : Bool → Str → Str
suffix plain txid = if plain then txid else txid ++ lit ":encrypted"

cache_key_lem :
    (r : FileRequest) → cache_key r ≡ r.chain_id ++ (b':' ∷ suffix (is_empty r.evk) r.txid)
unfolding cache_key lit
cache_key_lem r = ground arith

suffix_inj :
    (a b : Bool) (x y : Str)
    → length x ≡ 64
    → length y ≡ 64
    → suffix a x ≡ suffix b y
    → (a ≡ b) × (x ≡ y)
unfolding lit
suffix_inj true true x y p q e = (refl, e)
suffix_inj false false x y p q e = (refl, append_cancel_right x y (lit ":encrypted") e)
suffix_inj true false x y p q e =
    absurd (omega (arith, ap length e, length-append y (lit ":encrypted")))
suffix_inj false true x y p q e =
    absurd (omega (arith, ap length e, length-append x (lit ":encrypted")))

-- Well-formed requests share a cache key exactly if they name the same chain and transaction and
-- both carry a viewing key or neither does. Which viewing key a request carries has no part in it.
pub cache_key-eq_iff :
    (r s : FileRequest)
    → IsWellFormed r
    → IsWellFormed s
    → (cache_key r ≡ cache_key s)
      ↔ ((r.chain_id ≡ s.chain_id) × (r.txid ≡ s.txid) × (is_empty r.evk ≡ is_empty s.evk))
cache_key-eq_iff r s w v = (
  λ e.
      let (c, t) =
        split_at_separator b':' r.chain_id s.chain_id _ _ (no_colon _ w.chain_id)
          (no_colon _ v.chain_id) (sym (cache_key_lem r) ∙ e ∙ cache_key_lem s) in
      let (k, t') =
        suffix_inj (is_empty r.evk) (is_empty s.evk) r.txid s.txid w.txid.0 v.txid.0 t in
      (c, t', k),
  λ (c, t, k). rw (cache_key_lem r, cache_key_lem s, c, t, k),
)
