-- ===== src/Http/RateLimit/Cleaning.antt =====
-- The cleanup of the visitors, and requests of other visitors.
use mathlib.Core.Path.{subst}
use verus_gateway.Base.{
  ℕ, ◌+◌, ◌-◌, ◌^◌, ◌≤◌, ◌≡◌, refl, ap, sym, ◌∙◌, Bool, true, false, inl, inr, Option, none, some,
  List, [], ◌∷◌, arith, ◌==◌, list_eq, if◌then◌else◌, Bool-cases, Option-cases,
}
use verus_gateway.Base.Bytes.{Str}
use verus_gateway.Base.Int.{
  ℤ, pos, negsuc, ◌≤ℤ◌, ltb_ℤ, add64, sub64, add64_pos, sub64_pos, -ℤ_parts, pos_part,
}
use verus_gateway.Http.RateLimit.{
  Visitor, RateLimiter, visitor, put, refill, allow, is_stale, sweep, cleanup_visitors,
}

-- No address stands twice.
abbrev pub IsMap : List (Str × Visitor) → Type 0
IsMap [] = Unit
IsMap ((ip, _) ∷ visitors) = (visitor ip visitors ≡ none) × IsMap visitors

pub visitor-put :
    (ip q : Str) (v : Visitor) (l : List (Str × Visitor))
    → visitor q (put ip v l) ≡ (if q == ip then some v else visitor q l)
unfolding visitor put
visitor-put ip q v [] = ground arith
visitor-put ip q v ((i, w) ∷ l) = ground (arith, visitor-put ip q v l)

visitor-sweep :
    (window : ℤ) (now : ℕ) (q : Str) (l : List (Str × Visitor))
    → IsMap l
    → visitor q (sweep window now l)
      ≡ elim (visitor q l) [ none ↦ none | some v ↦ if is_stale window now v then none else some v ]
unfolding visitor sweep
visitor-sweep window now q [] m = refl
visitor-sweep window now q ((i, w) ∷ l) (fresh, m) = ground (arith, visitor-sweep window now q l m)

put-IsMap : (ip : Str) (v : Visitor) (l : List (Str × Visitor)) → IsMap l → IsMap (put ip v l)
unfolding visitor put
put-IsMap ip v [] m = ground arith
put-IsMap ip v ((i, w) ∷ l) (fresh, m) = ground (arith, put-IsMap ip v l m, visitor-put ip i v l)

-- What one request makes of its visitor, and whether it is allowed.
unfoldable pub serve : RateLimiter → ℕ → Option Visitor → Visitor × Bool
unfolding refill
serve rl now none =
    (record { tokens = sub64 rl.rate (pos 1); last_seen = now; last_refill = now }, true)
serve rl now (some v) =
    let v' = refill rl now v in
    if ltb_ℤ (pos 0) v'.tokens
    then (record v' { tokens = sub64 v'.tokens (pos 1) }, true)
    else (v', false)

module _ (now : ℕ) (ip : Str) (rl : RateLimiter) where
  abbrev pub served : Visitor × Bool
  served = serve rl now (visitor ip rl.visitors)

  pub allow-serve :
      allow now ip rl ≡ (record rl { visitors = put ip served.0 rl.visitors }, served.1)
  unfolding allow serve
  allow-serve = elim (Option-cases (visitor ip rl.visitors)) [
    | inl h ↦ rw (h, allow, serve) refl
    | inr (v, h) ↦ elim (Bool-cases (ltb_ℤ (pos 0) (refill rl now v).tokens)) [
      | inl k ↦ rw (h, allow, serve, k) refl
      | inr k ↦ rw (h, allow, serve, k) refl
    ]
  ]

  -- A request changes its own visitor alone.
  pub visitor-allow :
      (q : Str)
      → visitor q (allow now ip rl).0.visitors
        ≡ (if q == ip then some served.0 else visitor q rl.visitors)
  visitor-allow q = rw allow-serve (visitor-put ip q served.0 rl.visitors)

-- Every visitor was last refilled before it was last seen, which was before `t`, and its tokens are
-- between 0 and the rate.
pub record IsSound (t : ℕ) (rl : RateLimiter) : Type 0 where
  pub is_map : IsMap rl.visitors
  pub rate : (pos 1 ≤ℤ rl.rate) × (rl.rate ≤ℤ pos (2 ^ 63 - 1))
  pub visitors :
      (q : Str) (v : Visitor)
      → visitor q rl.visitors ≡ some v
      → (v.last_refill ≤ v.last_seen)
        × (v.last_seen ≤ t)
        × (pos 0 ≤ℤ v.tokens)
        × (v.tokens ≤ℤ rl.rate)

twice : (w : ℤ) → pos 0 ≤ℤ w → w ≤ℤ pos (2 ^ 62 - 1) → add64 w w ≡ pos (pos_part w + pos_part w)
twice (pos n) h k = add64_pos n n (omega arith)
twice (negsuc n) h k = absurd (omega arith)

-- A token is taken.
pub take_token :
    (a : ℤ) → pos 1 ≤ℤ a → a ≤ℤ pos (2 ^ 63 - 1) → sub64 a (pos 1) ≡ pos (pos_part a - 1)
take_token (pos n) h k = sub64_pos n 1 (omega arith) (omega arith)
take_token (negsuc n) h k = absurd (omega arith)

serve-bounds :
    (t now : ℕ) (rl : RateLimiter) (o : Option Visitor)
    → (pos 1 ≤ℤ rl.rate) × (rl.rate ≤ℤ pos (2 ^ 63 - 1))
    → t ≤ now
    → ((v : Visitor)
        → o ≡ some v
        → (v.last_refill ≤ v.last_seen)
          × (v.last_seen ≤ t)
          × (pos 0 ≤ℤ v.tokens)
          × (v.tokens ≤ℤ rl.rate))
    → let v = (serve rl now o).0 in
      (v.last_refill ≤ v.last_seen)
      × (v.last_seen ≤ now)
      × (pos 0 ≤ℤ v.tokens)
      × (v.tokens ≤ℤ rl.rate)
unfolding serve refill
serve-bounds t now rl none (r, r') le sound = ground (arith, take_token rl.rate r r')
serve-bounds t now rl (some v) (r, r') le sound =
    let (a, b, c, d) = sound v refl in ground (arith, take_token rl.rate r r', take_token v.tokens)

some-inj {ℓ} : {A : Type ℓ} {a b : A} → some a ≡ some b → a ≡ b
some-inj h = cc

-- Each request keeps the limiter sound: no visitor ever has more tokens than the rate, or fewer than 0.
pub allow-IsSound :
    (t now : ℕ) (ip : Str) (rl : RateLimiter)
    → IsSound t rl
    → t ≤ now
    → IsSound now (allow now ip rl).0
allow-IsSound t now ip rl s le =
    let v = served now ip rl in
    let b = serve-bounds t now rl (visitor ip rl.visitors) s.rate le (s.visitors ip) in
    rw (allow-serve now ip rl) (record {
      is_map = put-IsMap ip v.0 rl.visitors s.is_map;
      rate = s.rate;
      visitors = λ q w h. elim (list_eq.dec q ip) [
        | yes e ↦
            subst
              (λ x.
                (x.last_refill ≤ x.last_seen)
                × (x.last_seen ≤ now)
                × (pos 0 ≤ℤ x.tokens)
                × (x.tokens ≤ℤ rl.rate))
              (some-inj (sym (visitor-put ip q v.0 rl.visitors ∙ ground arith) ∙ h)) b
        | no n ↦ ground (arith, s.visitors q w, visitor-put ip q v.0 rl.visitors)
      ];
    })

serve-stale :
    (cleaned now : ℕ) (rl : RateLimiter) (v : Visitor)
    → (pos 1 ≤ℤ rl.rate) × (rl.rate ≤ℤ pos (2 ^ 63 - 1))
    → rl.window ≤ℤ pos (2 ^ 62 - 1)
    → pos 0 ≤ℤ rl.window
    → cleaned ≤ now
    → v.last_refill ≤ v.last_seen
    → is_stale rl.window cleaned v ≡ true
    → serve rl now (some v) ≡ serve rl now none
unfolding serve refill is_stale
serve-stale cleaned now rl v r w' w le sound stale = ground (
  arith,
  twice rl.window w w',
  -ℤ_parts (pos now) (pos v.last_refill),
  -ℤ_parts (pos cleaned) (pos v.last_seen),
)

pub serve-visitors :
    (rl : RateLimiter) (l : List (Str × Visitor)) (now : ℕ) (o : Option Visitor)
    → serve (record rl { visitors = l }) now o ≡ serve rl now o
unfolding serve refill
serve-visitors rl l now none = refl
serve-visitors rl l now (some v) = refl

module _ (t cleaned now : ℕ) (ip : Str) (rl : RateLimiter) (s : IsSound t rl) where
  serve-sweep :
      pos 0 ≤ℤ rl.window
      → rl.window ≤ℤ pos (2 ^ 62 - 1)
      → cleaned ≤ now
      → serve rl now (visitor ip (sweep rl.window cleaned rl.visitors))
        ≡ serve rl now (visitor ip rl.visitors)
  serve-sweep w w' le =
      let swept = visitor-sweep rl.window cleaned ip rl.visitors s.is_map in
      elim (Option-cases (visitor ip rl.visitors)) [
        | inl h ↦ ap (serve rl now) (swept ∙ rw h refl)
        | inr (v, h) ↦ elim (Bool-cases (is_stale rl.window cleaned v)) [
          | inl k ↦
              ap (serve rl now) (swept ∙ rw (h, k) refl)
              ∙ (sym (serve-stale cleaned now rl v s.rate w' w le (s.visitors ip v h).0 k)
                  ∙ ap (serve rl now) (sym h))
          | inr k ↦ ap (serve rl now) (swept ∙ rw (h, k) refl)
        ]
      ]

  served-cleanup_visitors :
      pos 0 ≤ℤ rl.window
      → rl.window ≤ℤ pos (2 ^ 62 - 1)
      → cleaned ≤ now
      → served now ip (cleanup_visitors cleaned rl) ≡ served now ip rl
  unfolding cleanup_visitors
  served-cleanup_visitors w w' le =
      serve-visitors rl (sweep rl.window cleaned rl.visitors) now _ ∙ serve-sweep w w' le

pub visitor-allow_self :
    (now : ℕ) (ip : Str) (rl : RateLimiter)
    → visitor ip (allow now ip rl).0.visitors ≡ some (served now ip rl).0
visitor-allow_self now ip rl = visitor-allow now ip rl ip ∙ ground arith

-- Of a limiter with a rate from 1 to 2^63 - 1, a window of 0 to 2^62 - 1 nanoseconds, one visitor for
-- each client, and visitors with tokens from 0 to the rate that were refilled no later than they were
-- seen: the next request after a cleanup, of any client and at any time from the cleanup on, gets the
-- answer that it gets without the cleanup, and leaves the client's visitor as without it.
pub allow-cleanup_visitors :
    (t cleaned now : ℕ) (ip : Str) (rl : RateLimiter)
    → IsSound t rl
    → pos 0 ≤ℤ rl.window
    → rl.window ≤ℤ pos (2 ^ 62 - 1)
    → cleaned ≤ now
    → ((allow now ip (cleanup_visitors cleaned rl)).1 ≡ (allow now ip rl).1)
      × (visitor ip (allow now ip (cleanup_visitors cleaned rl)).0.visitors
          ≡ visitor ip (allow now ip rl).0.visitors)
allow-cleanup_visitors t cleaned now ip rl s w w' le =
    let same = served-cleanup_visitors t cleaned now ip rl s w w' le in
    let swept = cleanup_visitors cleaned rl in
    (
      ap (λ r. r.1) (allow-serve now ip swept)
          ∙ (ap (λ r. r.1) same ∙ sym (ap (λ r. r.1) (allow-serve now ip rl))),
      visitor-allow_self now ip swept
          ∙ (ap (λ r. some r.0) same ∙ sym (visitor-allow_self now ip rl)),
    )
