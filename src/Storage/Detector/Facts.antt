-- ===== src/Storage/Detector/Facts.antt =====
-- What the detector says of a content: its extension, and whether it looks like text.
use mathlib.Core.List.{lookup}
use mathlib.Core.Option.{get_or}
use mathlib.Core.Path.{subst}
use verus_gateway.Base.{
  ◌≤◌, ◌<◌, ◌≡◌, ◌≢◌, ◌⊎◌, ◌∙◌, inl, inr, refl, ap, sym, Bool, true, not, ◌&&◌, List, [], ◌∷◌, ◌==◌,
  nat_eq, list_eq, ℕ_discrete, ltb, arith, Bool-cases, if◌then◌else◌, length, take,
  take_of_length-le, All, every, every_iff, All-map,
}
use verus_gateway.Base.Bytes.{Byte, Bytes, Str, lit, trim_prefix}
use verus_gateway.Domain.Request.{is_empty}
use verus_gateway.FilePath.{IsPlain, EndsIn, ext, ext_cases}
use verus_gateway.Storage.Detector.{
  ext_map, detect_mime, detect_extension, extension_of, non_printable_marks, non_printable,
  is_text_like,
}

is_plain : Byte → Bool
is_plain c = not (c == b'.') && not (c == b'/')

is_proper : Str → Bool
is_proper e = not (is_empty e) && every is_plain e

IsPlain-of : (e : Str) → every is_plain e ≡ true → All IsPlain e
unfolding is_plain
IsPlain-of e h =
    All-map (λ c. is_plain c ≡ true) IsPlain e (λ c p. ground arith) ((every_iff is_plain e).0 h)

lookup-every :
    (p : Str → Bool) (m : List (Str × Str)) (k d : Str)
    → every (λ row. p row.1) m ≡ true
    → p d ≡ true
    → p (get_or (lookup list_eq.dec k m) d) ≡ true
unfolding lookup every
lookup-every p [] k d h q = q
lookup-every p ((j, v) ∷ m) k d h q = ground (arith, lookup-every p m k d)

ext_map-proper : every (λ row. is_proper row.1) ext_map ≡ true
unfolding every is_proper is_plain ext_map lit ℕ_discrete
ext_map-proper = refl

bin-proper : is_proper (lit "bin") ≡ true
unfolding every is_proper is_plain lit ℕ_discrete
bin-proper = refl

module _ (sniff : Bytes → Str) (content : Bytes) where
  detect_extension-proper : is_proper (detect_extension sniff content) ≡ true
  unfolding detect_extension
  detect_extension-proper =
      lookup-every is_proper ext_map (detect_mime sniff content) (lit "bin") ext_map-proper
        bin-proper

  detected : (detect_extension sniff content ≢ []) × All IsPlain (detect_extension sniff content)
  unfolding is_proper
  detected = (
    λ e. ground (arith, detect_extension-proper),
    IsPlain-of _ (ground (arith, detect_extension-proper)),
  )

  trim_dot : (e : Str) → trim_prefix (lit ".") (b'.' ∷ e) ≡ e
  unfolding trim_prefix lit ℕ_discrete
  trim_dot e = refl

  abbrev IsExtension : Str → Str → Type 0
  IsExtension filename e =
      (e ≢ []) × All IsPlain e × (EndsIn e filename ⊎ (e ≡ detect_extension sniff content))

  by_content :
      (filename : Str)
      → extension_of sniff content filename ≡ detect_extension sniff content
      → IsExtension filename (extension_of sniff content filename)
  by_content filename h = subst (IsExtension filename) (sym h) (detected.0, detected.1, inr refl)

  by_name :
      (filename : Str) (c : Byte) (e : Str)
      → ext filename ≡ b'.' ∷ c ∷ e
      → EndsIn (c ∷ e) filename
      → (extension_of sniff content filename ≡ c ∷ e)
        ⊎ (extension_of sniff content filename ≡ detect_extension sniff content)
  unfolding extension_of
  by_name [] c e h k = inr refl
  by_name (d ∷ s) c e h k = inl (rw h (rw (trim_dot (c ∷ e))))

  -- The extension in the metadata is never empty and holds neither a dot nor a slash. It is what the
  -- file name ends in behind a dot, or else the one that the content's type has.
  pub extension_of_lem :
      (filename : Str)
      → let e = extension_of sniff content filename in
        (e ≢ []) × All IsPlain e × (EndsIn e filename ⊎ (e ≡ detect_extension sniff content))
  unfolding extension_of
  extension_of_lem filename = go (ext_cases filename)
    where
      go :
          (ext filename ≡ []) ⊎ ((e : Str) × (ext filename ≡ b'.' ∷ e) × EndsIn e filename)
          → IsExtension filename (extension_of sniff content filename)
      go (inl h) = by_content filename (ground arith)
      go (inr ([], h, k)) = by_content filename (ground (arith, trim_dot []))
      go (inr (c ∷ e, h, k)) = elim (by_name filename c e h k) [
        | inl named ↦ subst (IsExtension filename) (sym named) ((λ z. ground arith), k.0, inl k)
        | inr typed ↦ by_content filename typed
      ]

-- A byte of plain text: white space or a printable ASCII character.
abbrev pub IsPrintable : Byte → Type 0
IsPrintable b = (b ≡ 0x09) ⊎ (b ≡ 0x0A) ⊎ (b ≡ 0x0D) ⊎ ((0x20 ≤ b) × (b ≤ 0x7E))

marks_printable : (b : Byte) → IsPrintable b → non_printable_marks b ≡ 0
unfolding non_printable_marks
marks_printable b h = ground arith

non_printable-zero : (bs : Bytes) → All IsPrintable bs → non_printable bs ≡ 0
unfolding non_printable
non_printable-zero [] _ = refl
non_printable-zero (b ∷ bs) (p, ps) = omega (arith, marks_printable b p, non_printable-zero bs ps)

take_head :
    (content : Bytes)
    → take (if ltb (length content) 512 then length content else 512) content ≡ take 512 content
take_head content = elim (Bool-cases (ltb (length content) 512)) [
  | inl short ↦ rw short (
      take_of_length-le (length content) content (omega arith)
      ∙ sym (take_of_length-le 512 content (ground arith)))
  | inr long ↦ rw long
]

text_like_of_none :
    (content : Bytes)
    → 0 < length content
    → non_printable (take (if ltb (length content) 512 then length content else 512) content) ≡ 0
    → is_text_like content ≡ true
unfolding is_text_like
text_like_of_none content n z = ground arith

-- A content whose first 512 bytes are plain text looks like text, whatever follows them.
pub is_text_like_printable :
    (content : Bytes)
    → content ≢ []
    → All IsPrintable (take 512 content)
    → is_text_like content ≡ true
is_text_like_printable [] n p = absurd (n refl)
is_text_like_printable (b ∷ bs) n p =
    text_like_of_none (b ∷ bs) (omega arith)
      (ap non_printable (take_head (b ∷ bs)) ∙ non_printable-zero (take 512 (b ∷ bs)) p)
