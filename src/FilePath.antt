-- ===== src/FilePath.antt =====
-- Go's path/filepath, as internal/storage/detector.go and internal/cache/filesystem.go call it.
use verus_gateway.Base.{
  ℕ_discrete, ◌≡◌, ◌≢◌, ◌⊎◌, ◌∙◌, inl, inr, refl, ap, [], ◌∷◌, ◌++◌, ◌==◌, nat_eq, arith,
  Bool-cases, if◌then◌else◌, All,
}
use verus_gateway.Base.Bytes.{Byte, Str, lit}

-- The text from the last dot that no slash follows, if there is one; `best` is what is known of the
-- part already read.
unfoldable pub ext_from : Str → Str → Str
ext_from best [] = best
ext_from best (c ∷ s) = ext_from (if c == b'/' then [] else if c == b'.' then c ∷ s else best) s

-- `filepath.Ext`
unfoldable pub ext : Str → Str
ext s = ext_from [] s

-- A byte that neither ends a directory's name nor starts an extension.
abbrev pub IsPlain : Byte → Type 0
IsPlain c = (c ≢ b'.') × (c ≢ b'/')

-- The text ends in a dot and plain bytes.
abbrev pub EndsIn : Str → Str → Type 0
EndsIn e s = All IsPlain e × ((before : Str) × (s ≡ before ++ (b'.' ∷ e)))

-- What the scan of `s` makes of the extension known before it.
abbrev Scanned : Str → Str → Str → Type 0
Scanned best s r =
    ((r ≡ best) × All IsPlain s) ⊎ (r ≡ []) ⊎ ((e : Str) × (r ≡ b'.' ∷ e) × EndsIn e s)

EndsIn-cons : (c : Byte) (e s : Str) → EndsIn e s → EndsIn e (c ∷ s)
EndsIn-cons c e s (plain, (before, same)) = (plain, (c ∷ before, ap (◌∷◌ c) same))

Scanned-slash : (best : Str) (c : Byte) (s r : Str) → Scanned [] s r → Scanned best (c ∷ s) r
Scanned-slash best c s r (inl (h, _)) = inr (inl h)
Scanned-slash best c s r (inr (inl h)) = inr (inl h)
Scanned-slash best c s r (inr (inr (e, h, k))) = inr (inr (e, h, EndsIn-cons c e s k))

Scanned-dot :
    (best : Str) (c : Byte) (s r : Str) → c ≡ b'.' → Scanned (c ∷ s) s r → Scanned best (c ∷ s) r
Scanned-dot best c s r d (inl (h, p)) =
    inr (inr (s, h ∙ ap (λ x. x ∷ s) d, (p, ([], ap (λ x. x ∷ s) d))))
Scanned-dot best c s r d (inr (inl h)) = inr (inl h)
Scanned-dot best c s r d (inr (inr (e, h, k))) = inr (inr (e, h, EndsIn-cons c e s k))

Scanned-plain :
    (best : Str) (c : Byte) (s r : Str) → IsPlain c → Scanned best s r → Scanned best (c ∷ s) r
Scanned-plain best c s r p (inl (h, ps)) = inl (h, (p, ps))
Scanned-plain best c s r p (inr (inl h)) = inr (inl h)
Scanned-plain best c s r p (inr (inr (e, h, k))) = inr (inr (e, h, EndsIn-cons c e s k))

ext_from-Scanned : (best s : Str) → Scanned best s (ext_from best s)
unfolding ext_from
ext_from-Scanned best [] = inl (refl, tt)
ext_from-Scanned best (c ∷ s) = elim (Bool-cases (c == b'/')) [
  | inl slash ↦ rw slash (Scanned-slash best c s _ (ext_from-Scanned [] s))
  | inr other ↦ elim (Bool-cases (c == b'.')) [
    | inl dot ↦ rw (other, dot) (Scanned-dot best c s _ (ground arith) (ext_from-Scanned (c ∷ s) s))
    | inr plain ↦
        rw (other, plain) (Scanned-plain best c s _ (ground arith) (ext_from-Scanned best s))
  ]
]

-- `filepath.Ext`: nothing, or the dot and the plain bytes that the name ends in.
pub ext_cases : (s : Str) → (ext s ≡ []) ⊎ ((e : Str) × (ext s ≡ b'.' ∷ e) × EndsIn e s)
unfolding ext
ext_cases s = go (ext_from-Scanned [] s)
  where
    go : Scanned [] s (ext_from [] s) → (ext s ≡ []) ⊎ ((e : Str) × (ext s ≡ b'.' ∷ e) × EndsIn e s)
    go (inl (h, _)) = inl h
    go (inr r) = r

ext_from-plain : (best e : Str) → All IsPlain e → ext_from best e ≡ best
unfolding ext_from
ext_from-plain best [] _ = refl
ext_from-plain best (c ∷ e) (p, ps) = ground (arith, ext_from-plain best e ps)

ext_from-dot : (best e : Str) → ext_from best (b'.' ∷ e) ≡ ext_from (b'.' ∷ e) e
unfolding ext_from ℕ_discrete
ext_from-dot best e = refl

ext_from-append : (s best e : Str) → All IsPlain e → ext_from best (s ++ (b'.' ∷ e)) ≡ b'.' ∷ e
unfolding ext_from
ext_from-append [] best e p = ext_from-dot best e ∙ ext_from-plain (b'.' ∷ e) e p
ext_from-append (c ∷ s) best e p = ext_from-append s _ e p

-- A name that is given an extension has it.
pub ext-append : (s e : Str) → All IsPlain e → ext (s ++ (b'.' ∷ e)) ≡ b'.' ∷ e
unfolding ext
ext-append s e p = ext_from-append s [] e p

-- `filepath.Join` of a clean directory, a directory below it and a file name.
unfoldable pub join : Str → Str → Str → Str
join base subdir name = base ++ (lit "/" ++ (subdir ++ (lit "/" ++ name)))
