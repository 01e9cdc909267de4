-- ===== src/Observability/Logger/Masking.antt =====
-- What a masked text shows, and which loggers can be made.
use verus_gateway.Base.{
  ◌-◌, ◌≤◌, ◌<◌, ◌≡◌, ◌⊎◌, refl, ap, sym, ◌∙◌, false, inl, inr, ◌++◌, arith, leb, nat_eq, list_eq,
  length, take, drop, length-append, length-take, length-drop, Bool-cases,
}
use verus_gateway.Base.Bytes.{Str, lit}
use verus_gateway.Observability.Logger.{mask_sensitive_data}

module _ (s : Str) where
  short_mask : length s ≤ 4 → mask_sensitive_data s ≡ lit "****"
  unfolding mask_sensitive_data
  short_mask h = ground arith

  long_mask :
      4 < length s → mask_sensitive_data s ≡ take 2 s ++ (lit "****" ++ drop (length s - 2) s)
  unfolding mask_sensitive_data
  long_mask h = ground arith

long_of : (s : Str) → leb (length s) 4 ≡ false → 4 < length s
long_of s h = ground arith

length_stars : length (lit "****") ≡ 4
unfolding lit
length_stars = refl

-- A masked text has 4 or 8 bytes. Two texts have the same mask if both have at most 4 bytes, or if both
-- have more and agree in their first two and their last two.
pub mask_sensitive_data_hides :
    (s t : Str)
    → ((length (mask_sensitive_data s) ≡ 4) ⊎ (length (mask_sensitive_data s) ≡ 8))
      × (length s ≤ 4 → length t ≤ 4 → mask_sensitive_data s ≡ mask_sensitive_data t)
      × (4 < length s
          → 4 < length t
          → take 2 s ≡ take 2 t
          → drop (length s - 2) s ≡ drop (length t - 2) t
          → mask_sensitive_data s ≡ mask_sensitive_data t)
mask_sensitive_data_hides s t = (
  elim (Bool-cases (leb (length s) 4)) [
    | inl short ↦ inl (ap length (short_mask s (ground arith)) ∙ length_stars)
    | inr long ↦ inr (
        ap length (long_mask s (long_of s long))
        ∙ omega (
          arith,
          length-append (take 2 s) (lit "****" ++ drop (length s - 2) s),
          length-append (lit "****") (drop (length s - 2) s),
          length-take 2 s,
          length-drop (length s - 2) s,
          length_stars,
          long_of s long,
        ))
  ],
  λ h k. short_mask s h ∙ sym (short_mask t k),
  λ h k first last. ground (arith, long_mask s h, long_mask t k),
)
