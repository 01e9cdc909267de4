-- ===== src/Storage/Detector.antt =====
-- internal/storage/detector.go. `http.DetectContentType` is the argument `sniff`.
pub mod Riff
pub mod Facts
use mathlib.Core.List.{lookup}
use mathlib.Core.Option.{get_or}
use verus_gateway.Base.{
  ℕ, zero, suc, ◌+◌, ◌*◌, ◌≤◌, ◌≡◌, refl, Bool, true, false, not, ◌&&◌, ◌||◌, Option, none, some,
  List, [], ◌∷◌, ◌++◌, ◌==◌, nat_eq, list_eq, ltb, leb, if◌then◌else◌, length, take, drop,
}
use verus_gateway.Base.Bytes.{Byte, Bytes, Str, lit, has_prefix, contains, trim_prefix}
use verus_gateway.Domain.File.{FileMetadata}
use verus_gateway.Domain.Request.{is_empty}
use verus_gateway.FilePath.{ext}

-- The rows of `signatures`, in their order.
unfoldable pub signatures : List (Bytes × Str)
signatures =
    (0xFF ∷ 0xD8 ∷ 0xFF ∷ [], lit "image/jpeg")
    ∷ (0x89 ∷ 0x50 ∷ 0x4E ∷ 0x47 ∷ [], lit "image/png")
    ∷ (lit "GIF87a", lit "image/gif")
    ∷ (lit "GIF89a", lit "image/gif")
    ∷ (lit "RIFF", lit "image/webp")
    ∷ (0x42 ∷ 0x4D ∷ [], lit "image/bmp")
    ∷ (0x00 ∷ 0x00 ∷ 0x00 ∷ 0x18 ∷ 0x66 ∷ 0x74 ∷ 0x79 ∷ 0x70 ∷ [], lit "video/mp4")
    ∷ (0x1A ∷ 0x45 ∷ 0xDF ∷ 0xA3 ∷ [], lit "video/webm")
    ∷ (lit "ID3", lit "audio/mpeg")
    ∷ (0xFF ∷ 0xFB ∷ [], lit "audio/mpeg")
    ∷ (lit "OggS", lit "audio/ogg")
    ∷ (lit "RIFF", lit "audio/wav")
    ∷ (lit "%PDF", lit "application/pdf")
    ∷ (0x50 ∷ 0x4B ∷ 0x03 ∷ 0x04 ∷ [], lit "application/zip")
    ∷ (0x1F ∷ 0x8B ∷ [], lit "application/x-gzip")
    ∷ (lit "Rar!", lit "application/x-rar-compressed")
    ∷ (0x37 ∷ 0x7A ∷ 0xBC ∷ 0xAF ∷ 0x27 ∷ 0x1C ∷ [], lit "application/x-7z-compressed")
    ∷ []

-- What the body of the loop returns for a row that fits.
unfoldable pub mime_of_match : Bytes → Str → Str
mime_of_match content mime =
    let form = take 4 (drop 8 content) in
    if has_prefix (lit "RIFF") content && ltb 12 (length content)
    then if contains (lit "WAVE") form
      then lit "audio/wav"
      else if contains (lit "WEBP") form
      then lit "image/webp"
      else if contains (lit "AVI ") form
      then lit "video/x-msvideo"
      else mime
    else mime

-- The loop over the rows; no row fits: the empty text.
unfoldable pub match_signature : List (Bytes × Str) → Bytes → Str
match_signature [] content = []
match_signature ((magic, mime) ∷ rest) content =
    if has_prefix magic content then mime_of_match content mime else match_signature rest content

unfoldable pub detect_by_signature : Bytes → Str
detect_by_signature content =
    if ltb (length content) 16 then [] else match_signature signatures content

-- `isGzipCompressed`
unfoldable pub is_gzip_compressed : Bytes → Bool
is_gzip_compressed [] = false
is_gzip_compressed (a ∷ []) = false
is_gzip_compressed (a ∷ b ∷ content) = a == 0x1F && b == 0x8B

-- The map `extMap`.
unfoldable pub ext_map : List (Str × Str)
ext_map =
    (lit "image/jpeg", lit "jpg")
    ∷ (lit "image/png", lit "png")
    ∷ (lit "image/gif", lit "gif")
    ∷ (lit "image/webp", lit "webp")
    ∷ (lit "image/svg+xml", lit "svg")
    ∷ (lit "image/bmp", lit "bmp")
    ∷ (lit "video/mp4", lit "mp4")
    ∷ (lit "video/webm", lit "webm")
    ∷ (lit "video/mpeg", lit "mpeg")
    ∷ (lit "audio/mpeg", lit "mp3")
    ∷ (lit "audio/ogg", lit "ogg")
    ∷ (lit "audio/wav", lit "wav")
    ∷ (lit "application/pdf", lit "pdf")
    ∷ (lit "application/zip", lit "zip")
    ∷ (lit "application/x-gzip", lit "gz")
    ∷ (lit "application/json", lit "json")
    ∷ (lit "application/xml", lit "xml")
    ∷ (lit "text/html", lit "html")
    ∷ (lit "text/css", lit "css")
    ∷ (lit "text/javascript", lit "js")
    ∷ (lit "text/plain", lit "txt")
    ∷ (lit "application/octet-stream", lit "bin")
    ∷ []

module _ (sniff : Bytes → Str) where
  unfoldable pub detect_mime : Bytes → Str
  detect_mime content =
      let mime_type = sniff content in
      let detected = detect_by_signature content in
      if length content == 0
      then lit "application/octet-stream"
      else if mime_type == lit "application/octet-stream"
          || mime_type == lit "text/plain; charset=utf-8"
      then if not (is_empty detected) then detected else mime_type
      else mime_type

  unfoldable pub detect_extension : Bytes → Str
  detect_extension content = get_or (lookup list_eq.dec (detect_mime content) ext_map) (lit "bin")

  -- The two assignments of the field `Extension`.
  unfoldable pub extension_of : Bytes → Str → Str
  extension_of content filename =
      let named =
        (if is_empty filename
          then []
          else if is_empty (ext filename)
          then []
          else trim_prefix (lit ".") (ext filename)) in
      if is_empty named then detect_extension content else named

  unfoldable pub detect_type : Bytes → Str → FileMetadata
  detect_type content filename = record {
    filename = filename;
    size = length content;
    content_type = detect_mime content;
    extension = extension_of content filename;
    hash = [];
    compressed = is_gzip_compressed content;
    encrypted = false;
    created_at = none;
  }

-- The two tests of the loop on one byte, each of which counts.
unfoldable pub non_printable_marks : Byte → ℕ
non_printable_marks b =
    (if ltb b 0x20 && not (b == 0x09) && not (b == 0x0A) && not (b == 0x0D) then 1 else 0)
    + (if ltb 0x7E b then 1 else 0)

unfoldable pub non_printable : Bytes → ℕ
non_printable [] = 0
non_printable (b ∷ bs) = non_printable_marks b + non_printable bs

-- `float64(n) / float64(limit) < 0.3`: at a limit of at most 512 no rounding carries the quotient
-- across 0.3, and a quotient of exactly 3/10 rounds to the constant.
unfoldable pub is_text_like : Bytes → Bool
is_text_like content =
    let limit = if ltb (length content) 512 then length content else 512 in
    if length content == 0 then false else ltb (10 * non_printable (take limit content)) (3 * limit)
