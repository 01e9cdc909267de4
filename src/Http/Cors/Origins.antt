-- ===== src/Http/Cors/Origins.antt =====
-- The origins that are allowed.
use verus_gateway.Base.{
  ◌+◌, ◌-◌, ◌≡◌, ◌⊎◌, ◌↔◌, refl, ap, sym, ◌∙◌, true, inl, inr, List, [], ◌∷◌, ◌++◌, arith, ◌==◌,
  list_eq, nat_eq, length, drop, Bool-cases,
}
use verus_gateway.Base.Bytes.{
  Str, lit, has_prefix, trim_prefix, has_prefix_split, has_prefix-append,
}
use verus_gateway.Base.{length-append, take, take-append-drop}
use verus_gateway.Http.Auth.Access.{Has, Has-cons, Has-nil}
use verus_gateway.Http.Cors.{has_suffix, origin_matches, is_origin_allowed}

drop_append : (a t : Str) → drop (length a) (a ++ t) ≡ t
drop_append [] t = refl
drop_append (c ∷ a) t = drop_append a t

drop_before : (a t : Str) → drop (length a + length t - length t) (a ++ t) ≡ t
drop_before a t = ap (λ n. drop n (a ++ t)) (ground arith) ∙ drop_append a t

has_suffix_iff : (t s : Str) → (has_suffix t s ≡ true) ↔ ((before : Str) × (s ≡ before ++ t))
unfolding has_suffix
has_suffix_iff t s = (to, from)
  where
    to : has_suffix t s ≡ true → (before : Str) × (s ≡ before ++ t)
    to h = (
      take (length s - length t) s,
      sym (take-append-drop (length s - length t) s)
          ∙ ap (◌++◌ (take (length s - length t) s)) (ground arith),
    )

    from : (before : Str) × (s ≡ before ++ t) → has_suffix t s ≡ true
    from (before, e) = rw (e, length-append before t, drop_before before t) (ground arith)

-- How one entry of the configuration allows an origin: it is `*`, the origin itself, or `*.` and a text
-- that the origin ends in.
abbrev pub Allows : Str → Str → Type 0
Allows origin o =
    (o ≡ lit "*")
    ⊎ ((o ≡ origin)
        ⊎ ((domain : Str) × (o ≡ lit "*." ++ domain)
            × ((before : Str) × (origin ≡ before ++ domain))))

has_star : (o domain : Str) → o ≡ lit "*." ++ domain → has_prefix (lit "*.") o ≡ true
has_star o domain e = rw e (has_prefix-append (lit "*.") domain)

trim_star : (o domain : Str) → o ≡ lit "*." ++ domain → trim_prefix (lit "*.") o ≡ domain
unfolding trim_prefix
trim_star o domain e =
    ground (arith, has_star o domain e, ap (drop 2) e, drop_append (lit "*.") domain)

origin_matches_iff : (origin o : Str) → (origin_matches origin o ≡ true) ↔ Allows origin o
unfolding origin_matches
origin_matches_iff origin o = (to, from)
  where
    to : origin_matches origin o ≡ true → Allows origin o
    to h = elim (Bool-cases (o == lit "*")) [
      | inl e ↦ inl (ground arith)
      | inr n ↦ elim (Bool-cases (o == origin)) [
        | inl e ↦ inr (inl (ground arith))
        | inr n' ↦
            let (domain, e) = has_prefix_split (lit "*.") o (ground arith) in
            inr (
              inr (
                domain,
                e,
                (has_suffix_iff domain origin).0 (ground (arith, trim_star o domain e)),
              ))
      ]
    ]

    from : Allows origin o → origin_matches origin o ≡ true
    from (inl e) = ground arith
    from (inr (inl e)) = ground arith
    from (inr (inr (domain, e, b))) =
        ground
          (arith, trim_star o domain e, (has_suffix_iff domain origin).1 b, has_star o domain e)

-- An origin is allowed exactly if one of the configured entries allows it.
pub is_origin_allowed_iff :
    (origin : Str) (allowed : List Str)
    → (is_origin_allowed origin allowed ≡ true) ↔ ((o : Str) × Has o allowed × Allows origin o)
unfolding is_origin_allowed
is_origin_allowed_iff origin [] = (λ h. absurd (ground arith), λ (o, h, k). absurd (Has-nil o h))
is_origin_allowed_iff origin (o ∷ allowed) =
    let ih = is_origin_allowed_iff origin allowed in
    (
      λ h. elim (Bool-cases (origin_matches origin o)) [
        | inl m ↦ (o, (Has-cons o o allowed).1 (inl refl), (origin_matches_iff origin o).0 m)
        | inr m ↦
            let (p, here, k) = ih.0 (ground arith) in (p, (Has-cons p o allowed).1 (inr here), k)
      ],
      λ (p, here, k). elim ((Has-cons p o allowed).0 here) [
        | inl e ↦ ground (arith, (origin_matches_iff origin p).1 k)
        | inr later ↦ ground (arith, ih.1 (p, later, k))
      ],
    )
