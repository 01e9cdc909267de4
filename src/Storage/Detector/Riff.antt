-- ===== src/Storage/Detector/Riff.antt =====
-- The RIFF containers, which two rows of the signatures share.
use mathlib.Core.List.{append-nil}
use verus_gateway.Base.{
  ◌↔◌, ◌∙◌, ℕ_discrete, if◌then◌else◌, ◌≤◌, ◌≡◌, ◌≢◌, refl, ap, sym, true, [], ◌∷◌, ◌++◌, arith,
  length, length-append,
}
use verus_gateway.Base.Bytes.{
  Byte, Bytes, Str, lit, has_prefix, contains, contains_split, contains-append,
}
use verus_gateway.Storage.Detector.{signatures, mime_of_match, match_signature, detect_by_signature}

-- A part as long as the text is the text.
contains_whole : (t s : Str) → length t ≡ length s → contains t s ≡ true → t ≡ s
contains_whole t s e h = go (contains_split t s h)
  where
    go : (a : Str) × (b : Str) × (s ≡ a ++ (t ++ b)) → t ≡ s
    go ([], [], f) = ap (λ (u : Str). u) (sym (f ∙ append-nil t))
    go ([], c ∷ b, f) = absurd (omega (arith, ap length f, length-append t (c ∷ b)))
    go (c ∷ a, b, f) =
        absurd (omega (arith, ap length f, length-append (c ∷ a) (t ++ b), length-append t b))

contains_self : (t : Str) → contains t t ≡ true
contains_self t = rw append-nil at (contains-append t [] [])

module _ (a b c d w x y z : Byte) (rest : Bytes) (long : 4 ≤ length rest) where
  abbrev riff : Bytes
  riff = lit "RIFF" ++ (a ∷ b ∷ c ∷ d ∷ w ∷ x ∷ y ∷ z ∷ rest)

  abbrev form : Bytes
  form = w ∷ x ∷ y ∷ z ∷ []

  match_signature-riff : match_signature signatures riff ≡ mime_of_match riff (lit "image/webp")
  unfolding match_signature signatures has_prefix lit ℕ_discrete
  match_signature-riff = refl

  riff-mime_of_match : detect_by_signature riff ≡ mime_of_match riff (lit "image/webp")
  unfolding detect_by_signature lit
  riff-mime_of_match = ground (arith, match_signature-riff)

  mime_of_match-riff :
      (mime : Str)
      → mime_of_match riff mime ≡ (
          if contains (lit "WAVE") form
          then lit "audio/wav"
          else if contains (lit "WEBP") form
          then lit "image/webp"
          else if contains (lit "AVI ") form
          then lit "video/x-msvideo"
          else mime)
  unfolding mime_of_match lit has_prefix ℕ_discrete
  mime_of_match-riff mime = ground arith

  by_form : detect_by_signature riff ≡ (
      if contains (lit "WAVE") form
      then lit "audio/wav"
      else if contains (lit "WEBP") form
      then lit "image/webp"
      else if contains (lit "AVI ") form
      then lit "video/x-msvideo"
      else lit "image/webp")
  by_form = riff-mime_of_match ∙ mime_of_match-riff (lit "image/webp")

  contains-form : (t : Str) → length t ≡ 4 → (contains t form ≡ true) ↔ (form ≡ t)
  contains-form t four = (λ h. sym (contains_whole t form four h), λ e. rw e (contains_self t))

  -- A RIFF container of at least 16 bytes is typed by the four bytes at offset 8: WAVE, WEBP and AVI
  -- have their types, and every other form is taken for a WebP image, never for audio.
  pub detect_by_signature-riff :
      (form ≡ lit "WAVE" → detect_by_signature riff ≡ lit "audio/wav")
      × (form ≡ lit "WEBP" → detect_by_signature riff ≡ lit "image/webp")
      × (form ≡ lit "AVI " → detect_by_signature riff ≡ lit "video/x-msvideo")
      × (form ≢ lit "WAVE" → form ≢ lit "AVI " → detect_by_signature riff ≡ lit "image/webp")
  unfolding lit
  detect_by_signature-riff =
      let wave = contains-form (lit "WAVE") refl in
      let webp = contains-form (lit "WEBP") refl in
      let avi = contains-form (lit "AVI ") refl in
      (
        λ e. ground (arith, by_form, wave.1 e),
        λ e. ground (arith, by_form, webp.1 e, wave.0),
        λ e. ground (arith, by_form, avi.1 e, wave.0, webp.0),
        λ n m. ground (arith, by_form, wave.0, avi.0),
      )
